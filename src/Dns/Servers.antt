-- ===== src/Dns/Servers.antt =====
-- The lists of servers: no server twice, the supplied ones first.
use mathlib.Core.Path.{subst}
use mathlib.Core.List.{append-nil, append_assoc}
use tiller_router.Prelude.{
  String, str_eq, eq_iff, ◌≡◌, refl, ap, sym, ◌∙◌, false, ◌||◌, some, List, [], ◌∷◌, ◌++◌,
  if◌then◌else◌, arith, Bool-cases, Option-cases, inl, inr,
}
use tiller_router.Dns.{
  DnsText, default_servers, has_server, append_unique, server_address, parse_from, parse_servers,
  add_fallbacks,
}

-- No server stands twice.
abbrev pub Once : List String → Type 0
Once [] = Unit
Once (server ∷ servers) = (has_server servers server ≡ false) × Once servers

has_server-append :
    (servers : List String) (server other : String)
    → has_server (servers ++ (server ∷ [])) other
      ≡ (has_server servers other || str_eq server other)
unfolding has_server
has_server-append [] server other = ground arith
has_server-append (s ∷ servers) server other =
    ground (arith, has_server-append servers server other)

Once-append :
    (servers : List String) (server : String)
    → has_server servers server ≡ false
    → Once servers
    → Once (servers ++ (server ∷ []))
unfolding has_server
Once-append [] server new once = (refl, tt)
Once-append (s ∷ servers) server new once = (
  ground (arith, has_server-append servers server s, once.0, new, eq_iff s server, eq_iff server s),
  Once-append servers server (ground (arith, new)) once.1,
)

Once-append_unique :
    (servers : List String) (server : String) → Once servers → Once (append_unique servers server)
unfolding append_unique
Once-append_unique servers server once = elim (Bool-cases (has_server servers server)) [
  | inl old ↦ rw old once
  | inr new ↦ rw new (Once-append servers server new once)
]

has_server-append_unique :
    (servers : List String) (server other : String)
    → has_server (append_unique servers server) other
      ≡ (has_server servers other || str_eq server other)
unfolding append_unique
has_server-append_unique servers server other =
    ground (arith, has_server-append servers server other, eq_iff server other)

append_unique-prefix :
    (servers : List String) (server : String)
    → (more : List String) × (append_unique servers server ≡ servers ++ more)
unfolding append_unique
append_unique-prefix servers server = elim (Bool-cases (has_server servers server)) [
  | inl old ↦ ([], rw old (sym (append-nil servers)))
  | inr new ↦ (server ∷ [], rw new refl)
]

-- The servers that Dial tries are the supplied ones, in their order, followed by those fallbacks that
-- are not among them: none is tried twice, if no supplied one stands twice, and a server is tried
-- exactly if it is supplied or a fallback.
pub add_fallbacks_lem :
    (servers fallbacks : List String)
    → ((more : List String) × (add_fallbacks servers fallbacks ≡ servers ++ more))
      × (Once servers → Once (add_fallbacks servers fallbacks))
      × ((other : String)
          → has_server (add_fallbacks servers fallbacks) other
            ≡ (has_server servers other || has_server fallbacks other))
unfolding add_fallbacks has_server
add_fallbacks_lem servers [] = (([], sym (append-nil servers)), λ once. once, λ other. ground arith)
add_fallbacks_lem servers (fallback ∷ fallbacks) =
    let first = append_unique-prefix servers fallback in
    let rest = add_fallbacks_lem (append_unique servers fallback) fallbacks in
    (
      (
        first.0 ++ rest.0.0,
        rest.0.1
            ∙ ap (λ (l : List String). l ++ rest.0.0) first.1
            ∙ append_assoc servers first.0 rest.0.0,
      ),
      λ once. rest.1 (Once-append_unique servers fallback once),
      λ other. ground (arith, rest.2 other, has_server-append_unique servers fallback other),
    )

parse_from-Once :
    (text : DnsText) (servers values out : List String)
    → Once servers
    → parse_from text servers values ≡ some out
    → Once out
unfolding parse_from
parse_from-Once text servers [] out once h =
    let same : servers ≡ out = ground (arith, h) in subst (λ (l : List String). Once l) same once
parse_from-Once text servers (value ∷ values) out once h =
    elim (Option-cases (server_address text (text.trim_space value))) [
      | inl bad ↦ absurd (ground (arith, h, bad))
      | inr (address, good) ↦
          parse_from-Once text (append_unique servers address) values out
            (Once-append_unique servers address once) (ground (arith, h, good))
    ]

-- A list of fallback servers that is accepted names no server twice.
pub parse_servers-Once :
    (text : DnsText) (raw : String) (out : List String)
    → parse_servers text raw ≡ some out
    → Once out
unfolding parse_servers
parse_servers-Once text raw out h = elim (Bool-cases (text.is_off (text.trim_space raw))) [
  | inl off ↦
      let same : [] ≡ out = ground (arith, h, off) in subst (λ (l : List String). Once l) same tt
  | inr on ↦
      parse_from-Once text []
        (text.split_commas
          (if str_eq (text.trim_space raw) "" then default_servers else text.trim_space raw))
        out tt (ground (arith, h, on))
]

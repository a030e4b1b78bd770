-- ===== src/Limiter/Address.antt =====
-- internal/server/login_limiter.go: the address that security decisions use (`peerIP`, `clientIP`), and
-- the collapse of an address to a limiter key (`limiterKey`).
use tiller_router.Prelude.{
  String, str_eq, ◌≡◌, refl, Bool, true, false, Option, none, some, List, [], ◌∷◌, ◌++◌,
  if◌then◌else◌,
}
use tiller_router.Netip.{Netip}

module _ (net : Netip) where
  open net use {
    Addr, Prefix, parse_addr, unmap, is6, addr_text, prefix64_text, contains, split_host,
    split_commas, trim_space,
  }

  abbrev or_text : Option String → String → String
  or_text none s = s
  or_text (some t) s = t

  unfoldable pub peer_ip : String → String
  peer_ip remote = or_text (split_host remote) remote

  -- The addresses of the forwarded hops, if every one parses.
  unfoldable pub parse_hops : List String → Option (List Addr)
  parse_hops [] = some []
  parse_hops (part ∷ parts) = elim (parse_addr (trim_space part)) [
    | none ↦ none
    | some a ↦ elim (parse_hops parts) [ none ↦ none | some as' ↦ some (a ∷ as') ]
  ]

  -- The loop from the right end: the first address outside the trusted prefix.
  unfoldable pub outermost_untrusted : Prefix → List Addr → Option Addr
  outermost_untrusted trusted [] = none
  outermost_untrusted trusted (a ∷ rest) = elim (outermost_untrusted trusted rest) [
    | some b ↦ some b
    | none ↦ if contains trusted a then none else some a
  ]

  -- len(parts) == 1 && strings.TrimSpace(parts[0]) == ""
  abbrev pub is_blank : List String → Bool
  is_blank [] = false
  is_blank (part ∷ []) = str_eq (trim_space part) ""
  is_blank (part ∷ next ∷ rest) = false

  -- addrs[0]; Go's strings.Split never returns an empty list here.
  abbrev pub first_text : List Addr → String → String
  first_text [] direct = direct
  first_text (a ∷ rest) direct = addr_text a

  abbrev pub address_or : Option Addr → String → String
  address_or none direct = direct
  address_or (some a) direct = addr_text a

  abbrev pub chain_ip : Prefix → String → Option (List Addr) → String
  chain_ip trusted direct none = direct
  chain_ip trusted direct (some addrs) =
      address_or (outermost_untrusted trusted addrs) (first_text addrs direct)

  unfoldable pub forwarded_ip : Prefix → String → List String → String
  forwarded_ip trusted direct parts =
      if is_blank parts then direct else chain_ip trusted direct (parse_hops parts)

  abbrev pub behind : Prefix → String → List String → Option Addr → String
  behind trusted direct parts none = direct
  behind trusted direct parts (some peer) =
      if contains trusted peer then forwarded_ip trusted direct parts else direct

  -- `trusted` is none where the configured prefix is not valid.
  unfoldable pub client_ip : Option Prefix → String → String → String
  client_ip none remote forwarded = peer_ip remote
  client_ip (some trusted) remote forwarded =
      behind trusted (peer_ip remote) (split_commas forwarded) (parse_addr (peer_ip remote))

  unfoldable pub limiter_key : String → String
  limiter_key key = elim (parse_addr key) [
    | none ↦ key
    | some addr ↦
        if is6 (unmap addr)
        then or_text (prefix64_text (unmap addr)) key
        else addr_text (unmap addr)
  ]

-- A peer outside the trusted proxy cannot choose its address: whatever header it sends, the router
-- uses the address of the connection.
pub client_ip-untrusted_peer :
    (net : Netip) (trusted : net.Prefix) (remote forwarded : String) (peer : net.Addr)
    → net.parse_addr (peer_ip net remote) ≡ some peer
    → net.contains trusted peer ≡ false
    → client_ip net (some trusted) remote forwarded ≡ peer_ip net remote
unfolding client_ip
client_ip-untrusted_peer net trusted remote forwarded peer parsed outside = rw (parsed, outside)

-- Every address of the list lies in the trusted prefix.
abbrev pub AllTrusted : (net : Netip) → net.Prefix → List net.Addr → Type 0
AllTrusted net trusted [] = Unit
AllTrusted net trusted (a ∷ rest) = (net.contains trusted a ≡ true) × AllTrusted net trusted rest

outermost-none :
    (net : Netip) (trusted : net.Prefix) (after : List net.Addr)
    → AllTrusted net trusted after
    → outermost_untrusted net trusted after ≡ none
unfolding outermost_untrusted
outermost-none net trusted [] h = refl
outermost-none net trusted (a ∷ rest) h = rw (outermost-none net trusted rest h.1, h.0)

outermost-append :
    (net : Netip) (trusted : net.Prefix) (before : List net.Addr) (a : net.Addr)
    (after : List net.Addr)
    → net.contains trusted a ≡ false
    → AllTrusted net trusted after
    → outermost_untrusted net trusted (before ++ (a ∷ after)) ≡ some a
unfolding outermost_untrusted
outermost-append net trusted [] a after outside h = rw (outermost-none net trusted after h, outside)
outermost-append net trusted (b ∷ before) a after outside h =
    rw (outermost-append net trusted before a after outside h)

-- Behind a trusted proxy, with a header of which every hop parses, the router uses the last address
-- outside the trusted prefix: what a client writes in front of it has no effect.
pub client_ip_chain :
    (net : Netip) (trusted : net.Prefix) (remote forwarded : String) (peer : net.Addr)
    (before : List net.Addr) (client : net.Addr) (after : List net.Addr)
    → net.parse_addr (peer_ip net remote) ≡ some peer
    → net.contains trusted peer ≡ true
    → is_blank net (net.split_commas forwarded) ≡ false
    → parse_hops net (net.split_commas forwarded) ≡ some (before ++ (client ∷ after))
    → net.contains trusted client ≡ false
    → AllTrusted net trusted after
    → client_ip net (some trusted) remote forwarded ≡ net.addr_text client
unfolding client_ip forwarded_ip
client_ip_chain net trusted remote forwarded peer before client after parsed inside given hops
      outside h =
    rw (parsed, inside, given, hops, outermost-append net trusted before client after outside h)

-- ===== src/Limiter/AddressExamples.antt =====
-- The address rules of the limiter at a concrete model of net/netip: an address is its text, a prefix the
-- start of the addresses it contains.
use Prim.Native.Char.{Char, code}
use Prim.Native.String.{[] as empty, ◌∷◌ as ◌+∷◌}
use tiller_router.Prelude.{
  String, str_eq, ◌≡◌, refl, false, none, some, List, [], ◌∷◌, if◌then◌else◌, ◌==◌,
}
use tiller_router.Prelude.Text.{has_prefix}
use tiller_router.Netip.{Netip}
use tiller_router.Limiter.Address.{peer_ip, parse_hops, client_ip, client_ip_chain}

-- A character in front of the first part.
abbrev onto_first : Char → List String → List String
onto_first c [] = (c +∷ "") ∷ []
onto_first c (part ∷ parts) = (c +∷ part) ∷ parts

unfoldable split_at_commas : String → List String
split_at_commas empty = "" ∷ []
split_at_commas (c +∷ s) =
    let parts = split_at_commas s in if code c == 44 then "" ∷ parts else onto_first c parts

unfoldable drop_spaces : String → String
drop_spaces empty = ""
drop_spaces (c +∷ s) = let rest = drop_spaces s in if code c == 32 then rest else c +∷ s

abbrev net : Netip
net = record {
  Addr = String;
  Prefix = String;
  parse_addr = λ s. if str_eq s "" then none else some s;
  unmap = λ a. a;
  is6 = λ a. false;
  addr_text = λ a. a;
  prefix64_text = λ a. none;
  contains = λ p a. has_prefix a p;
  split_host = λ s. some s;
  split_commas = split_at_commas;
  trim_space = drop_spaces;
}

-- The client claims 1.1.1.1; the proxies add what they see.
client_ip_chain_example :
    client_ip net (some "10.") "10.0.0.1" "1.1.1.1, 5.5.5.5, 10.0.0.2" ≡ "5.5.5.5"
unfolding has_prefix peer_ip parse_hops split_at_commas drop_spaces
client_ip_chain_example =
    client_ip_chain net "10." "10.0.0.1" "1.1.1.1, 5.5.5.5, 10.0.0.2" "10.0.0.1" ("1.1.1.1" ∷ [])
      "5.5.5.5" ("10.0.0.2" ∷ []) refl refl refl refl refl (refl, tt)

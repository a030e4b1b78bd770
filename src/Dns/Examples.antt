-- ===== src/Dns/Examples.antt =====
-- The theorems of the DNS failover at a refused query, a frame and lists of servers.
use mathlib.Core.Path.{subst}
use tiller_router.Prelude.{
  ℕ, String, str_eq, ◌≡◌, ◌≢◌, refl, Bool, false, Option, none, some, [], ◌∷◌, ◌++◌, arith,
  if◌then◌else◌,
}
use tiller_router.Dns.{
  Bytes, DnsText, byte_at, matching_response, Wire, received, tcp_frame, udp_datagrams,
  first_matching, answer_of, round_trip, attempt_budget, authoritative, answered, panicked,
  exchange, read_frame, write_frame,
}
use tiller_router.Dns.Failover.{exchange-no_panic, exchange-first_authoritative}
use tiller_router.Dns.Frames.{read_frame-write_frame}

abbrev query : Bytes
query = 7 ∷ 9 ∷ 1 ∷ 0 ∷ 0 ∷ 1 ∷ 0 ∷ 0 ∷ 0 ∷ 0 ∷ 0 ∷ 0 ∷ []

abbrev refused : Bytes
refused = 7 ∷ 9 ∷ 129 ∷ 133 ∷ 0 ∷ 1 ∷ 0 ∷ 0 ∷ 0 ∷ 0 ∷ 0 ∷ 0 ∷ []

abbrev success : Bytes
success = 7 ∷ 9 ∷ 129 ∷ 128 ∷ 0 ∷ 1 ∷ 0 ∷ 1 ∷ 0 ∷ 0 ∷ 0 ∷ 0 ∷ []

-- The first server refuses, the second sends a stray datagram first.
abbrev wires : String → ℕ → Wire
wires server budget =
    if str_eq server "a" then tcp_frame (some refused) else udp_datagrams ((1 ∷ []) ∷ success ∷ [])

abbrev live : ℕ → Bool
live left = false

abbrev no_deadline : ℕ → Option ℕ
no_deadline left = none

exchange-no_panic_example : exchange live no_deadline wires query 1000 ("a" ∷ "b" ∷ []) ≢ panicked
exchange-no_panic_example = exchange-no_panic live no_deadline wires query 1000 ("a" ∷ "b" ∷ [])

refusal_unsure :
    (response : Bytes)
    → round_trip query (tcp_frame (some refused)) ≡ received response
    → authoritative response ≡ some false
unfolding round_trip answer_of matching_response byte_at authoritative
refusal_unsure response h =
    let same : refused ≡ response = ground (arith, h) in
    subst (λ (b : Bytes). authoritative b ≡ some false) same refl

exchange-first_authoritative_example :
    exchange live no_deadline wires query 1000 ("a" ∷ "b" ∷ "c" ∷ []) ≡ answered success
unfolding round_trip answer_of first_matching matching_response byte_at attempt_budget authoritative
exchange-first_authoritative_example =
    exchange-first_authoritative live no_deadline wires query 1000 ("a" ∷ []) "b" ("c" ∷ []) success
      (λ left. refl) (refusal_unsure, tt) refl refl

read_frame-write_frame_example :
    read_frame (write_frame query ++ (1 ∷ 2 ∷ [])) ≡ some (query, 1 ∷ 2 ∷ [])
read_frame-write_frame_example = read_frame-write_frame query (1 ∷ 2 ∷ []) (omega arith)

-- Every value is an address, and the list has three.
abbrev text : DnsText
text = record {
  trim_space = λ s. s;
  is_off = λ s. str_eq s "off";
  split_commas = λ s. s ∷ "8.8.8.8" ∷ s ∷ [];
  split_lines = λ s. s ∷ [];
  fields = λ s. s ∷ [];
  address_at_53 = λ s. some s;
  address_port = λ s. none;
}

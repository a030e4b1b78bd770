-- ===== src/Dns/Failover.antt =====
-- One exchange over the ordered servers.
use tiller_router.Prelude.{
  leb, ltb, ◌==◌, ◌&&◌, ℕ, zero, suc, ◌+◌, ◌≤◌, ◌<◌, String, ◌≡◌, ◌≢◌, refl, Bool, true, false,
  Option, none, some, List, [], ◌∷◌, ◌++◌, length, length-append, arith, Bool-cases, inl, inr,
}
use tiller_router.Dns.{
  and_then, bit, Received, received, errored, index_panic, taken_or, after_attempt, response_of,
  Bytes, byte_at, matching_response, Wire, unreachable, tcp_frame, udp_datagrams, first_matching,
  answer_of, round_trip, authoritative_at, authoritative, Exchange, answered, panicked,
  after_response, attempt, exchange_from, exchange,
}

byte_at-in_range : (bytes : Bytes) (i : ℕ) → i < length bytes → (b : ℕ) × (byte_at bytes i ≡ some b)
unfolding byte_at
byte_at-in_range [] i h = absurd (omega (arith, h))
byte_at-in_range (b ∷ bytes) zero h = (b, refl)
byte_at-in_range (b ∷ bytes) (suc i) h = byte_at-in_range bytes i (omega (arith, h))

authoritative-total :
    (response : Bytes) → 12 ≤ length response → (done : Bool) × (authoritative response ≡ some done)
unfolding authoritative authoritative_at
authoritative-total response h =
    let (flags, two) = byte_at-in_range response 2 (omega (arith, h)) in
    let (rcode, three) = byte_at-in_range response 3 (omega (arith, h)) in rw (two, three) (_, refl)

and_then-some : (x y : Bool) → and_then (some x) (some y) ≡ some (x && y)
and_then-some true y = refl
and_then-some false y = refl

-- Behind the guards on the two lengths, every index is good.
matching-judged :
    (query response : Bytes)
    → 12 ≤ length query
    → 12 ≤ length response
    → (match : Bool) × (matching_response query response ≡ some match)
unfolding matching_response
matching-judged query response q r =
    let (r0, zero_th) = byte_at-in_range response 0 (omega (arith, r)) in
    let (r1, first) = byte_at-in_range response 1 (omega (arith, r)) in
    let (r2, second) = byte_at-in_range response 2 (omega (arith, r)) in
    let (q0, zero_q) = byte_at-in_range query 0 (omega (arith, q)) in
    let (q1, first_q) = byte_at-in_range query 1 (omega (arith, q)) in
    rw (zero_th, first, second, zero_q, first_q)
      (rw (and_then-some (r0 == q0) (r1 == q1)) (
        rw (and_then-some (bit 128 r2) ((r0 == q0) && (r1 == q1)))
          (_, and_then-some (leb 12 (length response)) _)))

matching-short :
    (query response : Bytes)
    → leb 12 (length response) ≡ false
    → matching_response query response ≡ some false
unfolding matching_response
matching-short query response short = rw short refl

-- A response has a whole header, and no index panics.
abbrev Whole : Received → Type 0
Whole (received response) = 12 ≤ length response
Whole errored = Unit
Whole index_panic = ⊥

taken-rule :
    (otherwise : Received) (response : Bytes) (match : Bool)
    → 12 ≤ length response
    → Whole otherwise
    → Whole (taken_or otherwise response (some match))
taken-rule otherwise response true r w = r
taken-rule otherwise response false r w = w

taken-Whole :
    (query : Bytes) (otherwise : Received) (response : Bytes)
    → 12 ≤ length query
    → Whole otherwise
    → Whole (taken_or otherwise response (matching_response query response))
taken-Whole query otherwise response q w = elim (Bool-cases (leb 12 (length response))) [
  | inl long ↦
      let r : 12 ≤ length response = ground (arith, long) in
      let (match, judged) = matching-judged query response q r in
      rw judged (taken-rule otherwise response match r w)
  | inr short ↦ rw (matching-short query response short) w
]

first_matching-Whole :
    (query : Bytes) (datagrams : List Bytes)
    → 12 ≤ length query
    → Whole (first_matching query datagrams)
unfolding first_matching
first_matching-Whole query [] q = tt
first_matching-Whole query (datagram ∷ rest) q =
    taken-Whole query (first_matching query rest) datagram q (first_matching-Whole query rest q)

answer_of-Whole : (query : Bytes) (wire : Wire) → 12 ≤ length query → Whole (answer_of query wire)
unfolding answer_of
answer_of-Whole query unreachable q = tt
answer_of-Whole query (tcp_frame none) q = tt
answer_of-Whole query (tcp_frame (some response)) q = taken-Whole query errored response q tt
answer_of-Whole query (udp_datagrams datagrams) q = first_matching-Whole query datagrams q

round_trip-Whole : (query : Bytes) (wire : Wire) → Whole (round_trip query wire)
unfolding round_trip
round_trip-Whole query wire = elim (Bool-cases (ltb (length query) 12)) [
  | inl short ↦ rw short tt
  | inr long ↦ rw long (answer_of-Whole query wire (ground (arith, long)))
]

after_response-no_panic :
    (response : Bytes) (done : Bool) {after : Exchange}
    → after ≢ panicked
    → after_response after response (some done) ≢ panicked
after_response-no_panic response true h = λ e. cc
after_response-no_panic response false h = h

-- One turn panics only if the turns after it do.
after_attempt-no_panic :
    (after_error after_answer : Exchange) (got : Received)
    → Whole got
    → after_error ≢ panicked
    → after_answer ≢ panicked
    → after_attempt after_error after_answer got ≢ panicked
after_attempt-no_panic after_error after_answer (received r) w e a =
    let (done, judged) = authoritative-total r w in rw judged (after_response-no_panic r done a)
after_attempt-no_panic after_error after_answer errored w e a = e
after_attempt-no_panic after_error after_answer index_panic w e a = absurd w

-- A turn without an authoritative answer leaves the decision to the turns after it.
passed_over :
    (after_error after_answer goal : Exchange) (got : Received)
    → Whole got
    → ((response : Bytes) → got ≡ received response → authoritative response ≡ some false)
    → after_error ≡ goal
    → after_answer ≡ goal
    → after_attempt after_error after_answer got ≡ goal
passed_over after_error after_answer goal (received r) w unsure e a = rw (unsure r refl) a
passed_over after_error after_answer goal errored w unsure e a = e
passed_over after_error after_answer goal index_panic w unsure e a = absurd w

module _ (ended : ℕ → Bool) (remaining : ℕ → Option ℕ) (wires : String → ℕ → Wire) (query : Bytes)
    (timeout : ℕ) where
  abbrev pub try : String → ℕ → Received
  try = attempt ended remaining wires query timeout

  exchange_from-no_panic :
      (servers : List String) (last_response : Option Bytes) (failed : Bool)
      → exchange_from ended remaining wires query timeout servers last_response failed ≢ panicked
  unfolding exchange_from
  exchange_from-no_panic [] none failed = λ h. ground (arith, h)
  exchange_from-no_panic [] (some r) failed = λ h. ground (arith, h)
  exchange_from-no_panic (server ∷ servers) last_response failed =
      elim (Bool-cases (ended (suc (length servers)))) [
        | inl over ↦ rw over (λ h. cc)
        | inr live ↦
            let got = try server (suc (length servers)) in
            rw live (
              after_attempt-no_panic _ _ got (round_trip-Whole query (wires server _))
                (exchange_from-no_panic servers last_response true)
                (exchange_from-no_panic servers (response_of got) failed))
      ]

  -- Whatever the network sends, and however short the query or a response is, the exchange never indexes
  -- the one or the other out of range.
  pub exchange-no_panic :
      (servers : List String) → exchange ended remaining wires query timeout servers ≢ panicked
  unfolding exchange
  exchange-no_panic servers = exchange_from-no_panic servers none false

  -- The servers give no authoritative answer, where `left` servers come after them.
  abbrev pub AllUnsure : ℕ → List String → Type 0
  AllUnsure left [] = Unit
  AllUnsure left (server ∷ servers) =
      ((response : Bytes)
        → try server (suc (length servers + left)) ≡ received response
        → authoritative response ≡ some false)
      × AllUnsure left servers

  exchange_from-first :
      (before : List String) (server : String) (after : List String) (response : Bytes)
      (last_response : Option Bytes) (failed : Bool)
      → ((left : ℕ) → ended left ≡ false)
      → AllUnsure (suc (length after)) before
      → try server (suc (length after)) ≡ received response
      → authoritative response ≡ some true
      → exchange_from ended remaining wires query timeout
          (before ++ (server ∷ after))
          last_response
          failed
        ≡ answered response
  unfolding exchange_from
  exchange_from-first [] server after response last_response failed live unsure answer sure =
      rw (live (suc (length after)), answer, sure) refl
  exchange_from-first (first ∷ before) server after response last_response failed live unsure answer
        sure =
      let count = length-append before (server ∷ after) in
      let got = try first (suc (length (before ++ (server ∷ after)))) in
      let whole = round_trip-Whole query (wires first _) in
      rw (live (suc (length (before ++ (server ∷ after))))) (
        passed_over _ _ (answered response) got whole (λ r told. unsure.0 r (rw⁻¹ count told))
          (exchange_from-first before server after response last_response true live unsure.1 answer
            sure)
          (exchange_from-first before server after response (response_of got) failed live unsure.1
            answer sure))

  -- While the context lasts, the first server that gives an authoritative answer (success, NXDOMAIN
  -- or a truncated message) decides: the errors and the other answers (SERVFAIL, REFUSED and the
  -- like) of the servers before it are passed over.
  pub exchange-first_authoritative :
      (before : List String) (server : String) (after : List String) (response : Bytes)
      → ((left : ℕ) → ended left ≡ false)
      → AllUnsure (suc (length after)) before
      → try server (suc (length after)) ≡ received response
      → authoritative response ≡ some true
      → exchange ended remaining wires query timeout (before ++ (server ∷ after))
        ≡ answered response
  unfolding exchange
  exchange-first_authoritative before server after response live unsure answer sure =
      exchange_from-first before server after response none false live unsure answer sure

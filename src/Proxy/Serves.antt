-- ===== src/Proxy/Serves.antt =====
-- A virtual model serves a request as long as one of its targets can.
use tiller_router.Prelude.{
  ℕ, zero, suc, ◌+◌, ◌*◌, ◌≡◌, Bool, true, false, List, [], ◌∷◌, ◌++◌, arith, length,
}
use tiller_router.Fallback.{fallback_status}
use tiller_router.Prelude.{Option, none, some}
use tiller_router.Proxy.{Target, Answer, World, Request, Run}
use tiller_router.Proxy.Relay.{
  Relay, Ending, complete, clear_selected_cooldown, finish_relay, relay_aggregated,
  relay_translated, relay_plain, relay_response, end_ticket, close_request, proxy,
}
use tiller_router.Proxy.Attempt.{end_leg}
use tiller_router.Proxy.Loop.{
  Outcome, chosen, replied, passed, out_of_fuel, turn, more, try_all, after_first, after_second,
  no_target, route_request,
}
use tiller_router.Proxy.Rules.{proceed-rule, if-rule}
use tiller_router.Proxy.Ends.{Ended, cost-le, try_all-Ended}
use tiller_router.Proxy.Attempt.{try_target}
use tiller_router.Proxy.Survives.{
  Patient, Able, Survives, Wins, try_target-Survives, try_target-Wins,
}

-- A target was chosen, with a 2xx status.
abbrev pub Served : Outcome → Type 0
Served (chosen r t a) = fallback_status a.status ≡ false
Served (replied r reply) = ⊥
Served (passed r) = ⊥
Served out_of_fuel = ⊥

-- The pass served the request, or it came to its end and `skipped` says what it skipped.
abbrev Continues : (Bool → Type 0) → Outcome → Type 0
Continues skipped (chosen r t a) = fallback_status a.status ≡ false
Continues skipped (replied r reply) = ⊥
Continues skipped (passed r) = skipped r.skipped_cooled
Continues skipped out_of_fuel = Unit

Continues-weaken :
    {P Q : Bool → Type 0} (o : Outcome) → ((b : Bool) → P b → Q b) → Continues P o → Continues Q o
Continues-weaken (chosen r t a) f h = h
Continues-weaken (replied r reply) f h = h
Continues-weaken (passed r) f h = f r.skipped_cooled h
Continues-weaken out_of_fuel f h = h

module _ (w : World) (req : Request) (virtual : req.route.virtual ≡ true)
    (patient : (n : ℕ) (t : Target) → Patient (w.find n t)) where
  -- A pass never drops that it skipped a target.
  try_all-Continues :
      (fuel : ℕ) (bypass : Bool) (ts : List Target) (run : Run)
      → Continues (λ b. run.skipped_cooled ≡ true → b ≡ true) (try_all fuel w req bypass ts run)
  unfolding try_all turn
  try_all-Continues fuel bypass [] run = λ h. h
  try_all-Continues zero bypass (t ∷ ts) run = tt
  try_all-Continues (suc fuel) bypass (t ∷ ts) run =
      let run' = record run { tick = run.tick + 1 } in
      let P = Continues (λ b. run.skipped_cooled ≡ true → b ≡ true) in
      proceed-rule (Survives run') P (try_all fuel w req bypass ts)
        (try_all fuel w req bypass (t ∷ ts)) t
        (try_target w req bypass t (more ts) (w.find run.tick t) run')
        (try_target-Survives w req bypass t (more ts) (w.find run.tick t) run' (patient run.tick t)
          virtual)
        (λ r q.
          Continues-weaken (try_all fuel w req bypass ts r) (λ b f h. f (q h))
            (try_all-Continues fuel bypass ts r))
        (λ r q.
          Continues-weaken (try_all fuel w req bypass (t ∷ ts) r) (λ b f h. f (q h))
            (try_all-Continues fuel bypass (t ∷ ts) r))
        (λ r reply q. absurd q) (λ r a q. q)

  -- A pass over a target that can serve chooses a target, or skipped this one for its cooldown.
  try_all-Able :
      (fuel : ℕ) (bypass : Bool) (before after : List Target) (s : Target) (run : Run)
      → ((n : ℕ) → Able s (w.find n s))
      → Continues
          (λ b. (b ≡ true) × (bypass ≡ false))
          (try_all fuel w req bypass (before ++ (s ∷ after)) run)
  unfolding try_all turn
  try_all-Able zero bypass [] after s run able = tt
  try_all-Able zero bypass (t ∷ before) after s run able = tt
  try_all-Able (suc fuel) bypass [] after s run able =
      let run' = record run { tick = run.tick + 1 } in
      proceed-rule (Wins bypass) (Continues (λ b. (b ≡ true) × (bypass ≡ false)))
        (try_all fuel w req bypass after) (try_all fuel w req bypass (s ∷ after)) s
        (try_target w req bypass s (more after) (w.find run.tick s) run')
        (try_target-Wins w req bypass s (more after) (w.find run.tick s) run' (patient run.tick s)
          (able run.tick))
        (λ r q.
          Continues-weaken (try_all fuel w req bypass after r) (λ b f. (f q.0, q.1))
            (try_all-Continues fuel bypass after r))
        (λ r q. absurd q) (λ r reply q. absurd q) (λ r a q. q)
  try_all-Able (suc fuel) bypass (t ∷ before) after s run able =
      let run' = record run { tick = run.tick + 1 } in
      let ts = before ++ (s ∷ after) in
      proceed-rule (Survives run') (Continues (λ b. (b ≡ true) × (bypass ≡ false)))
        (try_all fuel w req bypass ts) (try_all fuel w req bypass (t ∷ ts)) t
        (try_target w req bypass t (more ts) (w.find run.tick t) run')
        (try_target-Survives w req bypass t (more ts) (w.find run.tick t) run' (patient run.tick t)
          virtual)
        (λ r q. try_all-Able fuel bypass before after s r able)
        (λ r q. try_all-Able fuel bypass (t ∷ before) after s r able) (λ r reply q. absurd q)
        (λ r a q. q)

second-Served :
    (req : Request) (bound : ℕ) (o : Outcome)
    → Ended bound o
    → Continues (λ b. (b ≡ true) × (true ≡ false)) o
    → Served (after_second req o)
unfolding after_second
second-Served req bound (chosen r t a) e c = c
second-Served req bound (replied r reply) e c = c
second-Served req bound (passed r) e (b, c) = absurd (cc)
second-Served req bound out_of_fuel e c = absurd e

first-Served :
    (w : World) (req : Request) (ts : List Target) (bound : ℕ) (o : Outcome)
    → ((run : Run)
        → Continues (λ b. (b ≡ true) × (true ≡ false)) (try_all (2 * length ts) w req true ts run))
    → Ended bound o
    → Continues (λ b. (b ≡ true) × (false ≡ false)) o
    → Served (after_first (2 * length ts) w req ts o)
unfolding after_first
first-Served w req ts bound (chosen r t a) h e c = c
first-Served w req ts bound (replied r reply) h e c = c
first-Served w req ts bound (passed r) h e (b, c) =
    let tried = try_all (2 * length ts) w req true ts r in
    if-rule Served r.skipped_cooled (after_second req tried) (no_target req r)
      (λ _.
        second-Served req _ tried (try_all-Ended (2 * length ts) w req true ts r (cost-le ts r))
          (h r))
      (λ n. absurd (cc))
first-Served w req ts bound out_of_fuel h e c = absurd e

route_request-serves :
    (w : World) (req : Request) (before after : List Target) (s : Target) (run : Run)
    → req.route.virtual ≡ true
    → ((n : ℕ) (t : Target) → Patient (w.find n t))
    → ((n : ℕ) → Able s (w.find n s))
    → Served (route_request w req (before ++ (s ∷ after)) run)
unfolding route_request
route_request-serves w req before after s run virtual patient able =
    let ts = before ++ (s ∷ after) in
    let fuel = 2 * length ts in
    first-Served w req ts _ (try_all fuel w req false ts run)
      (λ r. try_all-Able w req virtual patient fuel true before after s r able)
      (try_all-Ended fuel w req false ts run (cost-le ts run))
      (try_all-Able w req virtual patient fuel false before after s run able)

-- The client has the whole response, and the log row a 2xx status.
abbrev pub Delivered : Option (Run × Ending) → Type 0
Delivered none = ⊥
Delivered (some (r, ending)) = (ending ≡ complete) × (fallback_status r.row.http_status ≡ false)

relay-delivers :
    (req : Request) (t : Target) (a : Answer) (relay : Relay) (run : Run)
    → relay.error ≡ none
    → fallback_status a.status ≡ false
    → Delivered (some (relay_response req t a relay run))
unfolding relay_response relay_aggregated relay_translated relay_plain finish_relay
    clear_selected_cooldown
relay-delivers req t a relay run e ok = ground arith

Served-Delivered :
    (relay : Relay) (req : Request) (o : Outcome)
    → relay.error ≡ none
    → Served o
    → Delivered (close_request relay req o)
unfolding close_request end_ticket end_leg
Served-Delivered relay req (chosen r t a) e ok = relay-delivers req t a relay r e ok
Served-Delivered relay req (replied r reply) e ok = absurd ok
Served-Delivered relay req (passed r) e ok = absurd ok
Served-Delivered relay req out_of_fuel e ok = absurd ok

-- While the client stays, its body can be normalized and the relay meets no error: a virtual model
-- delivers the whole response of one of its targets, with a 2xx status, if there is a target that is
-- available and would serve the request at any turn, whatever the other targets answer, and although
-- any of them, this one too, may be cooling.
pub proxy-serves :
    (w : World) (relay : Relay) (req : Request) (before after : List Target) (s : Target)
    (run : Run)
    → req.route.virtual ≡ true
    → relay.error ≡ none
    → ((n : ℕ) (t : Target) → Patient (w.find n t))
    → ((n : ℕ) → Able s (w.find n s))
    → Delivered (proxy w relay req (before ++ (s ∷ after)) run)
unfolding proxy
proxy-serves w relay req before after s run virtual e patient able =
    Served-Delivered relay req (route_request w req (before ++ (s ∷ after)) run) e
      (route_request-serves w req before after s run virtual patient able)

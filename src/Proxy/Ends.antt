-- ===== src/Proxy/Ends.antt =====
-- The loop over the candidates ends: a turn is retried at most once for a provider.
use tiller_router.Prelude.{
  zero, suc, ◌+◌, ◌*◌, ◌≤◌, length, eq_iff, ℕ, String, ◌≡◌, Bool, true, false, List, [], ◌∷◌,
  if◌then◌else◌, arith,
}
use mathlib.Core.Path.{subst}
use tiller_router.Proxy.{
  Target, Answer, Response, unreached, answered, Turn, World, Request, Run, Step, next, again, stop,
  select,
}
use tiller_router.Proxy.Rules.{proceed-rule, if-rule}
use tiller_router.Proxy.Loop.{
  Outcome, chosen, replied, passed, out_of_fuel, turn, more, try_all, after_first, after_second,
  no_target, route_request,
}
use tiller_router.Proxy.Attempt.{
  member, add_attempt, mark_fallback, record_skipped_attempt, refuse, fail_with, client_gone,
  fall_back, start_leg, end_leg, cool, on_unreached, reject, recovers, on_rejected,
  on_preflight_failure, goes_on_or_stops, on_no_output, choose, after_probe, after_preflight,
  commit, on_response, send, fit_min_output, translate, prepare, try_target,
}

-- What a turn does to the providers that were refreshed.
abbrev pub Retry : Run → Target → Step → Type 0
Retry run t (next r) = (r.refreshed ≡ run.refreshed) × (r.tick ≡ run.tick)
Retry run t (again r) =
    (member t.provider_id run.refreshed ≡ false)
    × (r.refreshed ≡ t.provider_id ∷ run.refreshed)
    × (r.tick ≡ run.tick)
Retry run t (stop r reply) = (r.refreshed ≡ run.refreshed) × (r.tick ≡ run.tick)
Retry run t (select r answer) = (r.refreshed ≡ run.refreshed) × (r.tick ≡ run.tick)

module _ (w : World) (req : Request) (t : Target) (o : Turn) (run : Run) where
  unreached-Retry : (timed_out : Bool) → Retry run t (on_unreached w req t o run timed_out)
  unfolding on_unreached client_gone fail_with fall_back add_attempt end_leg cool
  unreached-Retry timed_out = ground arith

  rejected-Retry : (a : Answer) → Retry run t (on_rejected w req t o run a)
  unfolding on_rejected reject recovers fail_with fall_back add_attempt end_leg cool
  rejected-Retry a = ground arith

  preflight-Retry : (class : String) → Retry run t (on_preflight_failure w req t o run class)
  unfolding on_preflight_failure fail_with fall_back add_attempt end_leg cool
  preflight-Retry class = ground arith

  no_output-Retry : (a : Answer) (class : String) → Retry run t (on_no_output w req t o run a class)
  unfolding on_no_output goes_on_or_stops end_leg
  no_output-Retry a class = ground arith

response-Retry :
    (w : World) (req : Request) (t : Target) (o : Turn) (run : Run) (response : Response)
    → Retry run t (on_response w req t o run response)
unfolding on_response after_preflight after_probe choose commit add_attempt
response-Retry w req t o run (unreached timed_out) = unreached-Retry w req t o run timed_out
response-Retry w req t o run (answered a) =
    let run' = commit req a run in
    ground (
      arith,
      rejected-Retry w req t o run a,
      preflight-Retry w req t o run',
      no_output-Retry w req t o run' a,
    )

pub try_target-Retry :
    (w : World) (req : Request) (bypass : Bool) (t : Target) (advances : Bool) (o : Turn)
    (run : Run)
    → Retry run t (try_target w req bypass t advances o run)
unfolding try_target client_gone fail_with record_skipped_attempt add_attempt mark_fallback prepare
    refuse translate fit_min_output send start_leg
try_target-Retry w req bypass t advances o run =
    ground (arith, response-Retry w req t o (start_leg req t run) o.response)

-- How many turns the rest of a pass takes at most.
abbrev pub cost : List Target → Run → ℕ
cost [] run = 0
cost (t ∷ ts) run = (if member t.provider_id run.refreshed then 1 else 2) + 2 * length ts

pub cost-le : (ts : List Target) (run : Run) → cost ts run ≤ 2 * length ts
cost-le [] run = omega arith
cost-le (t ∷ ts) run = ground arith

-- The pass did not run out of fuel, and took turns up to the bound.
abbrev pub Ended : ℕ → Outcome → Type 0
Ended bound (chosen r t answer) = r.tick ≤ bound
Ended bound (replied r reply) = r.tick ≤ bound
Ended bound (passed r) = r.tick ≤ bound
Ended bound out_of_fuel = ⊥

Ended-later : (o : Outcome) {m n : ℕ} → m ≤ n → Ended m o → Ended n o
Ended-later (chosen r t answer) h e = omega arith
Ended-later (replied r reply) h e = omega arith
Ended-later (passed r) h e = omega arith
Ended-later out_of_fuel h e = e

member-head : (x : String) (r refreshed : List String) → r ≡ x ∷ refreshed → member x r ≡ true
unfolding member
member-head x r refreshed e = rw e (ground (arith, eq_iff x x))

pub try_all-Ended :
    (fuel : ℕ) (w : World) (req : Request) (bypass : Bool) (ts : List Target) (run : Run)
    → cost ts run ≤ fuel
    → Ended (run.tick + cost ts run) (try_all fuel w req bypass ts run)
unfolding try_all turn
try_all-Ended fuel w req bypass [] run h = omega arith
try_all-Ended zero w req bypass (t ∷ ts) run h = ground arith
try_all-Ended (suc fuel) w req bypass (t ∷ ts) run h =
    let run' = record run { tick = run.tick + 1 } in
    let bound = run.tick + cost (t ∷ ts) run in
    proceed-rule (Retry run' t) (Ended bound) (try_all fuel w req bypass ts)
      (try_all fuel w req bypass (t ∷ ts)) t
      (try_target w req bypass t (more ts) (w.find run.tick t) run')
      (try_target-Retry w req bypass t (more ts) (w.find run.tick t) run')
      (λ r q.
        Ended-later (try_all fuel w req bypass ts r) (ground (arith, q, cost-le ts r))
          (try_all-Ended fuel w req bypass ts r (ground (arith, q, cost-le ts r))))
      (λ r q.
        Ended-later (try_all fuel w req bypass (t ∷ ts) r)
          (ground (arith, q, member-head t.provider_id r.refreshed run.refreshed q.1))
          (try_all-Ended fuel w req bypass (t ∷ ts) r
            (ground (arith, q, member-head t.provider_id r.refreshed run.refreshed q.1))))
      (λ r reply q. ground (arith, q)) (λ r a q. ground (arith, q))

-- A target was chosen or the client has its reply, after at most so many turns.
abbrev pub Answered : ℕ → Outcome → Type 0
Answered bound (chosen r t answer) = r.tick ≤ bound
Answered bound (replied r reply) = r.tick ≤ bound
Answered bound (passed r) = ⊥
Answered bound out_of_fuel = ⊥

second-Answered :
    (req : Request) (bound : ℕ) (o : Outcome) → Ended bound o → Answered bound (after_second req o)
unfolding after_second no_target
second-Answered req bound (chosen r t answer) h = h
second-Answered req bound (replied r reply) h = h
second-Answered req bound (passed r) h = h
second-Answered req bound out_of_fuel h = h

first-Answered :
    (w : World) (req : Request) (ts : List Target) (bound : ℕ) (o : Outcome)
    → Ended bound o
    → Answered (bound + 2 * length ts) (after_first (2 * length ts) w req ts o)
unfolding after_first no_target
first-Answered w req ts bound (chosen r t answer) h = omega arith
first-Answered w req ts bound (replied r reply) h = omega arith
first-Answered w req ts bound (passed r) h =
    let fuel = 2 * length ts in
    let tried = try_all fuel w req true ts r in
    if-rule (Answered (bound + 2 * length ts)) r.skipped_cooled (after_second req tried) _
      (λ _. second-Answered req _ tried (
        Ended-later tried (omega (arith, cost-le ts r))
          (try_all-Ended fuel w req true ts r (cost-le ts r))))
      (λ _. omega arith)
first-Answered w req ts bound out_of_fuel h = h

-- Whatever the upstreams, the clocks and the client do, the two passes over the targets of a request
-- end: a target is chosen or the client has its reply, after at most four turns for each target.
pub route_request-ends :
    (w : World) (req : Request) (ts : List Target) (run : Run)
    → Answered (run.tick + 4 * length ts) (route_request w req ts run)
unfolding route_request
route_request-ends w req ts run =
    let fuel = 2 * length ts in
    let tried = try_all fuel w req false ts run in
    subst (λ n. Answered n (after_first fuel w req ts tried)) (omega arith)
      (first-Answered w req ts (run.tick + 2 * length ts) tried (
        Ended-later tried (omega (arith, cost-le ts run))
          (try_all-Ended fuel w req false ts run (cost-le ts run))))

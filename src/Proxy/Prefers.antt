-- ===== src/Proxy/Prefers.antt =====
-- The order of the targets: a first target that can serve is the only one that is tried.
use tiller_router.Prelude.{
  ℕ, zero, suc, ◌+◌, ◌*◌, ◌<◌, ◌≡◌, refl, Bool, true, false, List, ◌∷◌, length, arith,
}
use tiller_router.Fallback.{fallback_status}
use tiller_router.Proxy.{
  Target, Turn, World, Request, Run, Step, next, again, stop, select, Response, unreached, answered,
}
use tiller_router.Proxy.Loop.{
  Outcome, chosen, replied, passed, out_of_fuel, turn, more, try_all, after_first, route_request,
}
use tiller_router.Proxy.Rules.{proceed-rule}
use tiller_router.Proxy.Survives.{Patient, Able, delivers}
use tiller_router.Proxy.Attempt.{
  add_attempt, start_leg, preflight_class, probe_class, choose, after_probe, after_preflight,
  commit, on_response, send, fit_min_output, translate, prepare, is_skipped, try_target,
}

abbrev Picks : ℕ → Step → Type 0
Picks tick (next r) = ⊥
Picks tick (again r) = ⊥
Picks tick (stop r reply) = ⊥
Picks tick (select r a) = r.tick ≡ tick

response-Picks :
    (w : World) (req : Request) (t : Target) (o : Turn) (run : Run) (response : Response)
    → delivers response ≡ true
    → Picks run.tick (on_response w req t o run response)
unfolding on_response after_preflight after_probe choose add_attempt commit fallback_status
    preflight_class probe_class
response-Picks w req t o run (unreached timed_out) d = ground arith
response-Picks w req t o run (answered a) d = ground arith

try_target-Picks :
    (w : World) (req : Request) (bypass : Bool) (t : Target) (advances : Bool) (o : Turn)
    (run : Run)
    → Patient o
    → Able t o
    → is_skipped req bypass t o run ≡ false
    → Picks run.tick (try_target w req bypass t advances o run)
unfolding try_target prepare translate fit_min_output send start_leg
try_target-Picks w req bypass t advances o run (s, c, n, m) (a, k, p, e, f, h, b, d) open_target =
    ground (arith, response-Picks w req t o (start_leg req t run) o.response d)

-- The target was chosen, in the first turn.
abbrev pub FirstChoice : Target → ℕ → Outcome → Type 0
FirstChoice s tick (chosen r t a) = (t ≡ s) × (r.tick ≡ tick)
FirstChoice s tick (replied r reply) = ⊥
FirstChoice s tick (passed r) = ⊥
FirstChoice s tick out_of_fuel = ⊥

first :
    (fuel : ℕ) (w : World) (req : Request) (ts : List Target) (s : Target) (tick : ℕ) (o : Outcome)
    → FirstChoice s tick o
    → FirstChoice s tick (after_first fuel w req ts o)
unfolding after_first
first fuel w req ts s tick (chosen r t a) h = h
first fuel w req ts s tick (replied r reply) h = absurd h
first fuel w req ts s tick (passed r) h = absurd h
first fuel w req ts s tick out_of_fuel h = absurd h

pass :
    (fuel : ℕ) (w : World) (req : Request) (s : Target) (ts : List Target) (run : Run)
    → 0 < fuel
    → Patient (w.find run.tick s)
    → Able s (w.find run.tick s)
    → is_skipped req false s (w.find run.tick s) (record run { tick = run.tick + 1 }) ≡ false
    → FirstChoice s (run.tick + 1) (try_all fuel w req false (s ∷ ts) run)
unfolding try_all turn
pass zero w req s ts run h patient able open_target = absurd (omega arith)
pass (suc fuel) w req s ts run h patient able open_target =
    let run' = record run { tick = run.tick + 1 } in
    proceed-rule (Picks (run.tick + 1)) (FirstChoice s (run.tick + 1)) (try_all fuel w req false ts)
      (try_all fuel w req false (s ∷ ts)) s
      (try_target w req false s (more ts) (w.find run.tick s) run')
      (try_target-Picks w req false s (more ts) (w.find run.tick s) run' patient able open_target)
      (λ r q. absurd q) (λ r q. absurd q) (λ r reply q. absurd q) (λ r a q. (refl, q))

-- While the client stays and its body can be normalized: if the first target is available, not cooling, and
-- would serve the request, it is chosen in the first turn, whatever the targets behind it are.
pub route_request-first :
    (w : World) (req : Request) (s : Target) (ts : List Target) (run : Run)
    → Patient (w.find run.tick s)
    → Able s (w.find run.tick s)
    → is_skipped req false s (w.find run.tick s) (record run { tick = run.tick + 1 }) ≡ false
    → FirstChoice s (run.tick + 1) (route_request w req (s ∷ ts) run)
unfolding route_request
route_request-first w req s ts run patient able open_target =
    let fuel = 2 * length (s ∷ ts) in
    first fuel w req (s ∷ ts) s (run.tick + 1) (try_all fuel w req false (s ∷ ts) run)
      (pass fuel w req s ts run (omega arith) patient able open_target)

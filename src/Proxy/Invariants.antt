-- ===== src/Proxy/Invariants.antt =====
-- An invariant of the turns is one of the request: the rule for the loop and its two passes.
use tiller_router.Prelude.{ℕ, zero, suc, ◌*◌, length, Bool, true, false, List, [], ◌∷◌}
use tiller_router.Proxy.{
  Target, Answer, World, Request, Run, Reply, Step, next, again, stop, select,
}
use tiller_router.Proxy.Loop.{
  Outcome, chosen, replied, passed, out_of_fuel, turn, more, try_all, after_second, after_first,
  no_target, route_request,
}
use tiller_router.Proxy.Rules.{proceed-rule, if-rule}
use tiller_router.Proxy.Ends.{Answered, route_request-ends}

abbrev pub Everywhere : (Target → Type 0) → List Target → Type 0
Everywhere P [] = Unit
Everywhere P (t ∷ ts) = P t × Everywhere P ts

abbrev pub AnyTarget : Target → Type 0
AnyTarget t = Unit

pub everywhere : (ts : List Target) → Everywhere AnyTarget ts
everywhere [] = tt
everywhere (t ∷ ts) = (tt, everywhere ts)

module _ (Inv : Run → Type 0) (Stopped : Run → Reply → Type 0)
    (Selected : Run → Target → Answer → Type 0) where
  -- The invariant, or what holds instead when the loop is left.
  abbrev pub StepKeeps : Target → Step → Type 0
  StepKeeps t (next r) = Inv r
  StepKeeps t (again r) = Inv r
  StepKeeps t (stop r reply) = Stopped r reply
  StepKeeps t (select r a) = Selected r t a

  abbrev pub OutcomeKeeps : Outcome → Type 0
  OutcomeKeeps (chosen r t a) = Selected r t a
  OutcomeKeeps (replied r reply) = Stopped r reply
  OutcomeKeeps (passed r) = Inv r
  OutcomeKeeps out_of_fuel = Unit

  abbrev pub RouteKeeps : Outcome → Type 0
  RouteKeeps (chosen r t a) = Selected r t a
  RouteKeeps (replied r reply) = Stopped r reply
  RouteKeeps (passed r) = ⊥
  RouteKeeps out_of_fuel = ⊥

  module _ (w : World) (req : Request) (Good : Target → Type 0)
      (step : (bypass : Bool) (t : Target) (advances : Bool) (run : Run)
        → Good t
        → Inv run
        → StepKeeps t (turn w req bypass t advances run))
      (ending : (run : Run) → Inv run → OutcomeKeeps (no_target req run)) where
    try_all-keeps :
        (fuel : ℕ) (bypass : Bool) (ts : List Target) (run : Run)
        → Everywhere Good ts
        → Inv run
        → OutcomeKeeps (try_all fuel w req bypass ts run)
    unfolding try_all
    try_all-keeps fuel bypass [] run g i = i
    try_all-keeps zero bypass (t ∷ ts) run g i = tt
    try_all-keeps (suc fuel) bypass (t ∷ ts) run (g, gs) i =
        proceed-rule (StepKeeps t) OutcomeKeeps (try_all fuel w req bypass ts)
          (try_all fuel w req bypass (t ∷ ts)) t (turn w req bypass t (more ts) run)
          (step bypass t (more ts) run g i) (λ r q. try_all-keeps fuel bypass ts r gs q)
          (λ r q. try_all-keeps fuel bypass (t ∷ ts) r (g, gs) q) (λ r reply q. q) (λ r a q. q)

    second-keeps : (o : Outcome) → OutcomeKeeps o → OutcomeKeeps (after_second req o)
    unfolding after_second
    second-keeps (chosen r t a) h = h
    second-keeps (replied r reply) h = h
    second-keeps (passed r) h = ending r h
    second-keeps out_of_fuel h = h

    first-keeps :
        (fuel : ℕ) (ts : List Target) (o : Outcome)
        → Everywhere Good ts
        → OutcomeKeeps o
        → OutcomeKeeps (after_first fuel w req ts o)
    unfolding after_first
    first-keeps fuel ts (chosen r t a) g h = h
    first-keeps fuel ts (replied r reply) g h = h
    first-keeps fuel ts (passed r) g h =
        let tried = try_all fuel w req true ts r in
        if-rule OutcomeKeeps r.skipped_cooled (after_second req tried) (no_target req r)
          (λ _. second-keeps tried (try_all-keeps fuel true ts r g h)) (λ _. ending r h)
    first-keeps fuel ts out_of_fuel g h = h

    Answered-keeps : (n : ℕ) (o : Outcome) → Answered n o → OutcomeKeeps o → RouteKeeps o
    Answered-keeps n (chosen r t a) e h = h
    Answered-keeps n (replied r reply) e h = h
    Answered-keeps n (passed r) e h = absurd e
    Answered-keeps n out_of_fuel e h = absurd e

    pub route_request-keeps :
        (ts : List Target) (run : Run)
        → Everywhere Good ts
        → Inv run
        → RouteKeeps (route_request w req ts run)
    unfolding route_request
    route_request-keeps ts run g i =
        let fuel = 2 * length ts in
        let tried = try_all fuel w req false ts run in
        Answered-keeps _ (after_first fuel w req ts tried)
          (unfold route_request in route_request-ends w req ts run)
          (first-keeps fuel ts tried g (try_all-keeps fuel false ts run g i))

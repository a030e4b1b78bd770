-- ===== src/Proxy/Errors.antt =====
-- What the client is told when no target is chosen, and what the log row keeps of it.
use tiller_router.Prelude.{
  ℕ, ◌+◌, String, eq_iff, ◌≡◌, refl, Bool, true, false, List, if◌then◌else◌, arith,
}
use tiller_router.Fallback.{fallback_status}
use tiller_router.Proxy.{Target, Answer, World, Request, Run, Step, next, again, stop, select}
use tiller_router.Proxy.Loop.{turn, no_target, exhausted, route_request}
use tiller_router.Proxy.Invariants.{
  StepKeeps, OutcomeKeeps, RouteKeeps, AnyTarget, everywhere, route_request-keeps,
}
use mathlib.Core.Path.{subst, sym}
use tiller_router.Proxy.Tells.{Orderly, Told, Differs, Tells, try_target-Tells}

-- Nothing is claimed here of a target that was chosen.
abbrev pub NoClaim : Run → Target → Answer → Type 0
NoClaim r t a = Unit

unfoldable Proper : ℕ × String → Type 0
Proper (status, code) = (fallback_status status ≡ true) × Differs code

proper :
    (status : ℕ) (code : String)
    → fallback_status status ≡ true
    → Differs code
    → Proper (status, code)
unfolding Proper
proper status code s d = (s, d)

if-Proper :
    (b : Bool) (x y : ℕ × String) → (b ≡ true → Proper x) → Proper y → Proper (if b then x else y)
if-Proper true x y p q = p refl
if-Proper false x y p q = q

exhausted-Proper : (req : Request) (r : Run) → Orderly req r → Proper (exhausted req r)
unfolding exhausted fallback_status
exhausted-Proper req r (c, k) =
    let large = r.terminal_preflight_class in
    if-Proper _ _ _
      (λ e.
        proper 502 large refl
          (subst Differs (sym ((eq_iff large "upstream_response_too_large").0 e)) refl))
      (if-Proper _ _ _ (λ _. proper 400 r.translation_failure_class refl k)
        (if-Proper _ _ _ (λ _. proper 400 "protocol_unavailable" refl refl)
          (if-Proper _ _ _ (λ _. proper 400 "context_limit_exceeded" refl refl)
            (if-Proper _ _ _ (λ _. proper 400 "reasoning_roundtrip_required" refl refl)
              (if-Proper _ _ _ (λ _. proper 400 "unsupported_feature" refl refl)
                (if-Proper _ _ _ (λ _. proper 503 "virtual_model_unavailable" refl refl)
                  (proper 503 "model_unavailable" refl refl)))))))

no_target-Told :
    (req : Request) (r : Run)
    → Orderly req r
    → OutcomeKeeps (Orderly req) Told NoClaim (no_target req r)
unfolding no_target Proper
no_target-Told req r p = ground (arith, exhausted-Proper req r p)

-- A request that starts with no committed stream and no failed translation has a target chosen, or an
-- error reply such that: the log row carries the status and the code of the reply, the status is not
-- 2xx, and the reply is a frame on the stream exactly if the stream is committed and the code is not
-- that of a body that a target's normalizer refuses.
pub route_request-Told :
    (w : World) (req : Request) (ts : List Target) (run : Run)
    → run.committed ≡ false
    → run.translation_failure_class ≡ ""
    → RouteKeeps (Orderly req) Told NoClaim (route_request w req ts run)
route_request-Told w req ts run c k =
    route_request-keeps (Orderly req) Told NoClaim w req AnyTarget
      (λ bypass t advances r g i.
        unfold turn in
        tells t _ (
          try_target-Tells w req bypass t advances (w.find r.tick t)
            (record r { tick = r.tick + 1 }) i))
      (no_target-Told req) ts run (everywhere ts) (ground arith, rw k refl)
  where
    tells :
        (t : Target) (step : Step) → Tells req step → StepKeeps (Orderly req) Told NoClaim t step
    tells t (next r) h = h
    tells t (again r) h = h
    tells t (stop r reply) h = h
    tells t (select r a) h = h

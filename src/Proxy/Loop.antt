-- ===== src/Proxy/Loop.antt =====
-- internal/server/client.go, `proxy`: the two passes over the candidates, and the reply when no target
-- was chosen. The retry of a turn (`i--`) makes the loop one on fuel.
use tiller_router.Prelude.{
  ℕ, zero, suc, ◌+◌, ◌*◌, String, str_eq, Bool, true, false, not, ◌&&◌, some, List, [], ◌∷◌,
  if◌then◌else◌, length,
}
use tiller_router.Fallback.{all_attempts_failure_class, all_skipped_unsupported_feature}
use tiller_router.Proxy.{
  Target, Answer, World, Request, Run, Reply, Step, next, again, stop, select,
}
use tiller_router.Proxy.Attempt.{try_target}

-- A target was chosen, the request was answered with an error, the pass came to its end, or the fuel did.
pub data Outcome : Type 0 where
  chosen : Run → Target → Answer → Outcome
  replied : Run → Reply → Outcome
  passed : Run → Outcome
  out_of_fuel : Outcome

unfoldable pub turn : World → Request → Bool → Target → Bool → Run → Step
unfolding try_target
turn w req bypass t advances run =
    try_target w req bypass t advances (w.find run.tick t) (record run { tick = run.tick + 1 })

-- i < len(candidates)-1
unfoldable pub more : List Target → Bool
more [] = false
more (t ∷ ts) = true

unfoldable pub proceed : (Run → Outcome) → (Run → Outcome) → Target → Step → Outcome
proceed go_on retry t (next run) = go_on run
proceed go_on retry t (again run) = retry run
proceed go_on retry t (stop run reply) = replied run reply
proceed go_on retry t (select run answer) = chosen run t answer

unfoldable pub try_all : ℕ → World → Request → Bool → List Target → Run → Outcome
unfolding turn more proceed
try_all fuel w req bypass [] run = passed run
try_all zero w req bypass (t ∷ ts) run = out_of_fuel
try_all (suc fuel) w req bypass (t ∷ ts) run =
    proceed (try_all fuel w req bypass ts) (try_all fuel w req bypass (t ∷ ts)) t
      (turn w req bypass t (more ts) run)

-- The code of the reply when no target was chosen, and its status.
unfoldable pub exhausted : Request → Run → ℕ × String
exhausted req run =
    if str_eq run.terminal_preflight_class "upstream_response_too_large"
    then (502, run.terminal_preflight_class)
    else if not (str_eq run.translation_failure_class "") && not run.non_translation_failure
    then (400, run.translation_failure_class)
    else if run.protocol_unavailable
    then (400, "protocol_unavailable")
    else if req.route.virtual
        && all_attempts_failure_class "context_limit_exceeded" run.row.attempts
    then (400, "context_limit_exceeded")
    else if req.route.virtual
        && all_attempts_failure_class "reasoning_roundtrip_required" run.row.attempts
    then (400, "reasoning_roundtrip_required")
    else if req.route.virtual && all_skipped_unsupported_feature run.row.attempts
    then (400, "unsupported_feature")
    else if req.route.virtual
    then (503, "virtual_model_unavailable")
    else (503, "model_unavailable")

unfoldable pub no_target : Request → Run → Outcome
unfolding exhausted
no_target req run =
    let (status, code) = exhausted req run in
    replied (record run { row = record run.row { http_status = status; error_text = some code } })
      (record { status = status; code = code; framed = run.committed })

unfoldable pub after_second : Request → Outcome → Outcome
unfolding no_target
after_second req (chosen run t answer) = chosen run t answer
after_second req (replied run reply) = replied run reply
after_second req (passed run) = no_target req run
after_second req out_of_fuel = out_of_fuel

-- The second pass bypasses the cooldowns, if the first skipped a target for one.
unfoldable pub after_first : ℕ → World → Request → List Target → Outcome → Outcome
unfolding after_second no_target try_all
after_first fuel w req ts (chosen run t answer) = chosen run t answer
after_first fuel w req ts (replied run reply) = replied run reply
after_first fuel w req ts (passed run) =
    if run.skipped_cooled
    then after_second req (try_all fuel w req true ts run)
    else no_target req run
after_first fuel w req ts out_of_fuel = out_of_fuel

-- Each target takes at most two turns of a pass.
unfoldable pub route_request : World → Request → List Target → Run → Outcome
unfolding after_first try_all
route_request w req ts run =
    let fuel = 2 * length ts in after_first fuel w req ts (try_all fuel w req false ts run)

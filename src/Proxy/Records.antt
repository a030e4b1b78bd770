-- ===== src/Proxy/Records.antt =====
-- The attempts of one turn in the log row, weighed: a turn notes nothing, or a failed or skipped attempt, or,
-- where it recovers, the recovered one; and the success of the target that it chooses.
use tiller_router.Prelude.{
  ℕ, ◌+◌, String, str_eq, ◌≡◌, refl, Bool, true, not, ◌&&◌, ◌||◌, Option, none, some, List, [], ◌∷◌,
  ◌++◌, if◌then◌else◌, arith,
}
use tiller_router.Fallback.{
  cooldown_trigger, fallback_status, Attempt, record_pre_output_failure, settle_row,
}
use tiller_router.Proxy.{
  Target, Turn, World, Request, Run, Step, next, again, stop, select, Answer, Response, unreached,
  answered, Untranslated, translation_code,
}
use tiller_router.Proxy.Relay.{mark_last_attempt_failed}
use tiller_router.Proxy.Rules.{step-rule}
use tiller_router.Proxy.Attempt.{
  configured, recovers, rejection_message, attempt_of, add_attempt, mark_fallback,
  record_skipped_attempt, refuse, fail_with, client_gone, fall_back, start_leg, end_leg, cool,
  unreached_class, on_unreached, rejection_class, reject, on_rejected, preflight_class,
  on_preflight_failure, probe_class, goes_on_or_stops, on_no_output, choose, after_probe,
  after_preflight, commit, on_response, send, fit_min_output, translate, prepare, try_target,
}

-- The weights of the attempts, added up.
unfoldable pub weigh : (Attempt → ℕ) → List Attempt → ℕ
weigh weight [] = 0
weigh weight (a ∷ attempts) = weight a + weigh weight attempts

pub weigh-add :
    (weight : Attempt → ℕ) (attempts : List Attempt) (a : Attempt)
    → weigh weight (attempts ++ (a ∷ [])) ≡ weigh weight attempts + weight a
unfolding weigh
weigh-add weight [] a = omega arith
weigh-add weight (b ∷ attempts) a = omega (arith, weigh-add weight attempts a)

abbrev pub is_success : Attempt → ℕ
is_success a = if str_eq a.result "success" then 1 else 0

abbrev pub successes : List Attempt → ℕ
successes = weigh is_success

pub successes-add :
    (attempts : List Attempt) (a : Attempt)
    → successes (attempts ++ (a ∷ [])) ≡ successes attempts + is_success a
successes-add = weigh-add is_success

pub successes-mark :
    (attempts : List Attempt) (a : Attempt) (class : String)
    → successes (mark_last_attempt_failed (attempts ++ (a ∷ [])) class) ≡ successes attempts
unfolding weigh mark_last_attempt_failed
successes-mark [] a class = refl
successes-mark (b ∷ []) a class = ground arith
successes-mark (b ∷ c ∷ attempts) a class = ground (arith, successes-mark (c ∷ attempts) a class)

-- The attempt that is noted where the credentials were renewed.
abbrev pub recovered_attempt : Target → ℕ → String → Attempt
recovered_attempt t status class = record (attempt_of t "failed" status class) { recovered = true }

abbrev pub Records : (Attempt → ℕ) → Run → Target → Step → Type 0
Records weight run t (next r) = weigh weight r.row.attempts ≡ weigh weight run.row.attempts
Records weight run t (again r) =
    (status : ℕ) × (class : String) × (weigh weight r.row.attempts
      ≡ weigh weight run.row.attempts + weight (recovered_attempt t status class))
Records weight run t (stop r reply) = weigh weight r.row.attempts ≡ weigh weight run.row.attempts
Records weight run t (select r a) =
    r.row.attempts ≡ run.row.attempts ++ (attempt_of t "success" a.status "" ∷ [])

-- Attempts that fail or are skipped weigh nothing.
module _ (weight : Attempt → ℕ)
    (failed : (t : Target) (status : ℕ) (class : String)
      → weight (attempt_of t "failed" status class) ≡ 0)
    (skipped : (t : Target) (class : String) → weight (attempt_of t "skipped" 0 class) ≡ 0) where
  module _ (w : World) (req : Request) (t : Target) (o : Turn) (run : Run) where
    added :
        (status : ℕ) (class : String)
        → weigh weight (run.row.attempts ++ (attempt_of t "failed" status class ∷ []))
          ≡ weigh weight run.row.attempts
    added status class = omega (
      arith,
      weigh-add weight run.row.attempts (attempt_of t "failed" status class),
      failed t status class,
    )

    unreached-Records :
        (timed_out : Bool) → Records weight run t (on_unreached w req t o run timed_out)
    unfolding on_unreached client_gone fail_with fall_back add_attempt end_leg cool
    unreached-Records timed_out = ground (arith, added 0 (unreached_class timed_out o.context))

    recovered-Records :
        (attempts : List Attempt) (status : ℕ) (class : String)
        → attempts ≡ run.row.attempts ++ (recovered_attempt t status class ∷ [])
        → (s : ℕ) × (c : String) × (weigh weight attempts
            ≡ weigh weight run.row.attempts + weight (recovered_attempt t s c))
    recovered-Records attempts status class e =
        (status, class, rw e (weigh-add weight run.row.attempts (recovered_attempt t status class)))

    rejected-Records : (a : Answer) → Records weight run t (on_rejected w req t o run a)
    unfolding on_rejected reject fail_with fall_back add_attempt end_leg cool
    rejected-Records a =
        let class = rejection_class w a in
        let due = configured req && cooldown_trigger class a.status in
        let noted =
          add_attempt (record (end_leg req t run) { non_translation_failure = true })
            (attempt_of t "failed" a.status class) in
        let r = cool w req t o class (rejection_message class) due noted in
        let P = Records weight run t in
        let go_on =
          if not req.route.virtual || not (fallback_status a.status)
          then reject r a class
          else fall_back r class in
        step-rule P (recovers run t a)
          (again
            (record (add_attempt (record (end_leg req t run) { non_translation_failure = true })
              (recovered_attempt t a.status class)) { refreshed = t.provider_id ∷ run.refreshed }))
          go_on (λ _. recovered-Records _ a.status class refl)
          (λ _.
            step-rule P (not req.route.virtual || not (fallback_status a.status)) (reject r a class)
              (fall_back r class) (λ _. ground (arith, added a.status class))
              (λ _. ground (arith, added a.status class)))

    preflight-Records :
        (class : String) → Records weight run t (on_preflight_failure w req t o run class)
    unfolding on_preflight_failure fail_with fall_back add_attempt end_leg cool
    preflight-Records class = ground (arith, added 0 class)

    no_output-Records :
        (a : Answer) (class : String) → Records weight run t (on_no_output w req t o run a class)
    unfolding on_no_output goes_on_or_stops end_leg record_pre_output_failure settle_row
    no_output-Records a class = ground (arith, added a.status class)

    after_probe-Records :
        (a : Answer) (class : Option String)
        → Records weight run t (after_probe w req t o run a class)
    unfolding after_probe choose add_attempt
    after_probe-Records a none = refl
    after_probe-Records a (some class) = no_output-Records a class

    after_preflight-Records :
        (a : Answer) (class : Option String)
        → Records weight run t (after_preflight w req t o run a class)
    unfolding after_preflight choose add_attempt
    after_preflight-Records a none =
        ground (arith, after_probe-Records a (probe_class a o.context a.probe))
    after_preflight-Records a (some class) = preflight-Records class

  response-Records :
      (w : World) (req : Request) (t : Target) (o : Turn) (run : Run) (response : Response)
      → Records weight run t (on_response w req t o run response)
  unfolding on_response commit
  response-Records w req t o run (unreached timed_out) = unreached-Records w req t o run timed_out
  response-Records w req t o run (answered a) = ground (
    arith,
    rejected-Records w req t o run a,
    after_preflight-Records w req t o (commit req a run) a
        (preflight_class a o.context a.preflight),
  )

  skip-Records :
      (req : Request) (run : Run) (t : Target) (class : String) (advances : Bool)
      → weigh weight (record_skipped_attempt req run t class advances).row.attempts
        ≡ weigh weight run.row.attempts
  unfolding record_skipped_attempt add_attempt mark_fallback
  skip-Records req run t class advances =
      ground
        (arith, weigh-add weight run.row.attempts (attempt_of t "skipped" 0 class), skipped t class)

  sent-Records :
      (w : World) (req : Request) (t : Target) (o : Turn) (run : Run)
      → Records weight run t (send w req t o run)
  unfolding send start_leg add_attempt
  sent-Records w req t o run = ground (
    arith,
    added w req t o run 0 "invalid_upstream",
    response-Records w req t o (start_leg req t run) o.response,
  )

  translate-Records :
      (w : World) (req : Request) (t : Target) (advances : Bool) (o : Turn) (run : Run)
      (failure : Option Untranslated)
      → Records weight run t (translate w req t advances o run failure)
  unfolding translate refuse fit_min_output
  translate-Records w req t advances o run none =
      ground
        (arith, skip-Records req run t "unsupported_feature" advances, sent-Records w req t o run)
  translate-Records w req t advances o run (some e) =
      let code = translation_code e in
      ground
        (arith, skip-Records req (record run { translation_failure_class = code }) t code advances)

  pub try_target-Records :
      (w : World) (req : Request) (bypass : Bool) (t : Target) (advances : Bool) (o : Turn)
      (run : Run)
      → Records weight run t (try_target w req bypass t advances o run)
  unfolding try_target client_gone fail_with refuse prepare
  try_target-Records w req bypass t advances o run =
      let failing = record run { non_translation_failure = true } in
      ground (
        arith,
        skip-Records req failing t "unavailable" advances,
        skip-Records req (record run { skipped_cooled = true }) t "cooldown" advances,
        skip-Records req failing t "free_model_requires_keyless" advances,
        skip-Records req (record failing { protocol_unavailable = true }) t "protocol_unavailable"
            advances,
        translate-Records w req t advances o run o.checks.translation,
      )

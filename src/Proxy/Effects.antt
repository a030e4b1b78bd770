-- ===== src/Proxy/Effects.antt =====
-- What one turn does to the cooldowns of other targets and accounts, and to the legs.
use tiller_router.Prelude.{
  ℕ, ◌≤◌, String, str_eq, ◌≡◌, refl, sym, Bool, true, false, not, ◌&&◌, ◌||◌, none, some, Option,
  [], ◌∷◌, ◌++◌, ltb, leb, if◌then◌else◌, arith,
}
use tiller_router.Prelude.Text.{nul_free}
use tiller_router.Cooldown.{CooldownStore, cooled}
use tiller_router.Cooldown.WellFormed.{WellFormed}
use tiller_router.Fallback.{
  Row, Attempt, is_alive, row_account_id, record_pre_output_failure, settle_row, cooldown_trigger,
  fallback_status, ClientContext, alive, deadline_exceeded, cancelled,
}
use tiller_router.Fallback.Messages.{fixed_upstream_error_message}
use mathlib.Core.Path.{subst}
use tiller_router.Prelude.{inl, inr}
use tiller_router.Proxy.Sends.{Plain, try_target-SendsOrPlain}
use tiller_router.Proxy.Rules.{step-rule}
use tiller_router.Proxy.Stores.{open_cooldown-elsewhere}
use tiller_router.Proxy.{
  Target, Answer, Response, unreached, answered, Turn, World, Request, Run, Step, next, again, stop,
  select, ordered,
}
use tiller_router.Proxy.Attempt.{
  attempt_of, add_attempt, fail_with, client_gone, fall_back, start_leg, end_leg, configured, cool,
  unreached_class, on_unreached, free_tier_rejection, rejection_class, reject, recovers,
  rejection_message, on_rejected, preflight_class, on_preflight_failure, probe_class,
  goes_on_or_stops, on_no_output, choose, after_probe, after_preflight, commit, on_response,
  try_target,
}

-- The cooldown of a target, at a time, is as before.
abbrev pub Kept : String → String → ℕ → CooldownStore → CooldownStore → Type 0
Kept account id time c c' = WellFormed c' × (cooled c' account id time ≡ cooled c account id time)

if-Kept :
    (account id : String) (time : ℕ) (due : Bool) (c c' : CooldownStore)
    → WellFormed c
    → Kept account id time c c'
    → Kept account id time c (if due then c' else c)
if-Kept account id time true c c' d k = k
if-Kept account id time false c c' d k = (d, refl)

settle_row-account :
    (row : Row) (context : ClientContext) (class : String)
    → (settle_row row context class).0.account_id ≡ row.account_id
unfolding settle_row
settle_row-account row alive class = refl
settle_row-account row deadline_exceeded class = refl
settle_row-account row cancelled class = refl

abbrev pub elsewhere : Run → Target → String → String → Bool
elsewhere run t account id =
    not (str_eq (row_account_id run.row) account && str_eq t.candidate.provider_model_id id)

abbrev pub KeepsRun : String → String → ℕ → Run → Run → Type 0
KeepsRun account id time run r =
    (r.row.account_id ≡ run.row.account_id) × Kept account id time run.cooldown r.cooldown

abbrev pub Keeps : String → String → ℕ → Run → Step → Type 0
Keeps account id time run (next r) = KeepsRun account id time run r
Keeps account id time run (again r) = KeepsRun account id time run r
Keeps account id time run (stop r reply) = KeepsRun account id time run r
Keeps account id time run (select r a) = KeepsRun account id time run r

module _ (w : World) (req : Request) (t : Target) (o : Turn) (account id : String) (time : ℕ)
    (free : nul_free account ≡ true) (later : o.failed_at ≤ time) where
  cool-KeepsRun :
      (class message : String) (due : Bool) (run : Run)
      → WellFormed run.cooldown
      → nul_free (row_account_id run.row) ≡ true
      → elsewhere run t account id ≡ true
      → KeepsRun account id time run (cool w req t o class message due run)
  unfolding cool
  cool-KeepsRun class message true run d own other = (
    refl,
    open_cooldown-elsewhere run.cooldown t.candidate class run.row req.cooldown_seconds
        (fixed_upstream_error_message w.http_message message) o.failed_at account id time d own free
        (ground arith) later,
  )
  cool-KeepsRun class message false run d own other = (refl, (d, refl))

  pre_output-KeepsRun :
      (run : Run) (attempt : Attempt) (class message : String) (context : ClientContext)
      → WellFormed run.cooldown
      → nul_free (row_account_id run.row) ≡ true
      → elsewhere run t account id ≡ true
      → let failed =
          record_pre_output_failure run.cooldown run.row t.candidate attempt class
            req.cooldown_seconds context message o.failed_at in
        (failed.1.account_id ≡ run.row.account_id) × Kept account id time run.cooldown failed.0
  unfolding record_pre_output_failure row_account_id
  pre_output-KeepsRun run attempt class message context d own other =
      let row' = record run.row { attempts = run.row.attempts ++ (attempt ∷ []) } in
      (
        settle_row-account row' context class,
        if-Kept account id time _ run.cooldown _ d (
            open_cooldown-elsewhere run.cooldown t.candidate class row' req.cooldown_seconds message
              o.failed_at account id time d own free (ground arith) later),
      )

  module _ (run : Run) (d : WellFormed run.cooldown)
      (own : nul_free (row_account_id run.row) ≡ true)
      (other : elsewhere run t account id ≡ true) where
    unreached-Keeps :
        (timed_out : Bool) → Keeps account id time run (on_unreached w req t o run timed_out)
    unfolding on_unreached client_gone fail_with fall_back add_attempt end_leg row_account_id
    unreached-Keeps timed_out =
        let class = unreached_class timed_out o.context in
        let noted =
          add_attempt (record (end_leg req t run) { non_translation_failure = true })
            (attempt_of t "failed" 0 class) in
        let due = configured req && cooldown_trigger class 0 && is_alive o.context in
        let r = cool w req t o class class due noted in
        let kept = cool-KeepsRun class class due noted d own other in
        let P = Keeps account id time run in
        step-rule P (not (is_alive o.context)) (client_gone noted class)
          (if not req.route.virtual then fail_with r 502 class else fall_back r class)
          (λ _. (refl, (d, refl)))
          (λ _.
            step-rule P (not req.route.virtual) (fail_with r 502 class) (fall_back r class)
              (λ _. kept) (λ _. kept))

    reject-Keeps :
        (r : Run) (a : Answer) (class : String)
        → KeepsRun account id time run r
        → Keeps account id time run (reject r a class)
    unfolding reject fail_with
    reject-Keeps r a class k =
        let P = Keeps account id time run in
        let limited =
          str_eq class "context_limit_exceeded" || str_eq class "reasoning_roundtrip_required" in
        let free = fail_with r 400 "free_tier_rejected" in
        let other_error = fail_with r a.status "upstream_error" in
        step-rule P limited (fail_with r a.status class)
          (if free_tier_rejection a then free else other_error) (λ _. k)
          (λ _. step-rule P (free_tier_rejection a) free other_error (λ _. k) (λ _. k))

    rejected-Keeps : (a : Answer) → Keeps account id time run (on_rejected w req t o run a)
    unfolding on_rejected reject fail_with fall_back add_attempt end_leg row_account_id
    rejected-Keeps a =
        let class = rejection_class w a in
        let noted =
          add_attempt (record (end_leg req t run) { non_translation_failure = true })
            (attempt_of t "failed" a.status class) in
        let due = configured req && cooldown_trigger class a.status in
        let r = cool w req t o class (rejection_message class) due noted in
        let kept = cool-KeepsRun class (rejection_message class) due noted d own other in
        let P = Keeps account id time run in
        let go_on =
          if not req.route.virtual || not (fallback_status a.status)
          then reject r a class
          else fall_back r class in
        step-rule P (recovers run t a)
          (again
            (record (add_attempt (record (end_leg req t run) { non_translation_failure = true })
              (record (attempt_of t "failed" a.status class) { recovered = true })) {
                refreshed = t.provider_id ∷ run.refreshed;
              }))
          go_on (λ _. (refl, (d, refl)))
          (λ _.
            step-rule P (not req.route.virtual || not (fallback_status a.status)) (reject r a class)
              (fall_back r class) (λ _. reject-Keeps r a class kept) (λ _. kept))

    preflight-Keeps :
        (class : String) → Keeps account id time run (on_preflight_failure w req t o run class)
    unfolding on_preflight_failure fail_with fall_back add_attempt end_leg row_account_id
    preflight-Keeps class =
        let noted =
          add_attempt
            (record (end_leg req t run) {
              non_translation_failure = true;
              terminal_preflight_class = class;
            })
            (attempt_of t "failed" 0 class) in
        let due = configured req && cooldown_trigger class 0 && is_alive o.context in
        let kept = cool-KeepsRun class class due noted d own other in
        let r = cool w req t o class class due noted in
        step-rule (Keeps account id time run) (not req.route.virtual || not (is_alive o.context))
          (fail_with r 502 class) (fall_back r class) (λ _. kept) (λ _. kept)

    stops-Keeps :
        (goes_on : Bool) (r : Run)
        → KeepsRun account id time run r
        → Keeps account id time run (goes_on_or_stops goes_on r)
    unfolding goes_on_or_stops
    stops-Keeps true r k = k
    stops-Keeps false r k = k

    no_output-Keeps :
        (a : Answer) (class : String)
        → Keeps account id time run (on_no_output w req t o run a class)
    unfolding on_no_output end_leg
    no_output-Keeps a class = stops-Keeps _ _ (
        pre_output-KeepsRun run (attempt_of t "failed" a.status class) class
          (fixed_upstream_error_message w.http_message class) o.context d own other)

    after_probe-Keeps :
        (a : Answer) (class : Option String)
        → Keeps account id time run (after_probe w req t o run a class)
    unfolding after_probe choose add_attempt
    after_probe-Keeps a none = (refl, (d, refl))
    after_probe-Keeps a (some class) = no_output-Keeps a class

    after_preflight-Keeps :
        (a : Answer) (class : Option String)
        → Keeps account id time run (after_preflight w req t o run a class)
    unfolding after_preflight choose add_attempt
    after_preflight-Keeps a none =
        step-rule (Keeps account id time run) (req.route.virtual && ordered req.route)
          (after_probe w req t o run a (probe_class a o.context a.probe)) (choose t run a)
          (λ _. after_probe-Keeps a (probe_class a o.context a.probe)) (λ _. (refl, (d, refl)))
    after_preflight-Keeps a (some class) = preflight-Keeps class

  response-Keeps :
      (run : Run) (response : Response)
      → WellFormed run.cooldown
      → nul_free (row_account_id run.row) ≡ true
      → elsewhere run t account id ≡ true
      → Keeps account id time run (on_response w req t o run response)
  unfolding on_response commit
  response-Keeps run (unreached timed_out) d own other = unreached-Keeps run d own other timed_out
  response-Keeps run (answered a) d own other =
      let class = preflight_class a o.context a.preflight in
      step-rule (Keeps account id time run) (ltb a.status 200 || leb 300 a.status)
        (on_rejected w req t o run a) (after_preflight w req t o (commit req a run) a class)
        (λ _. rejected-Keeps run d own other a)
        (λ _. after_preflight-Keeps (commit req a run) d own other a class)

  sent-Keeps :
      (run : Run) (step : Step)
      → Keeps account id time (start_leg req t run) step
      → Keeps account id time run step
  unfolding start_leg
  sent-Keeps run (next r) k = k
  sent-Keeps run (again r) k = k
  sent-Keeps run (stop r reply) k = k
  sent-Keeps run (select r a) k = k

  Plain-Keeps :
      (run : Run) (step : Step)
      → WellFormed run.cooldown
      → Plain run step
      → Keeps account id time run step
  Plain-Keeps run (next r) d (a, c, e) = (a, (subst WellFormed (sym c) d, ground (arith, c)))
  Plain-Keeps run (again r) d p = absurd p
  Plain-Keeps run (stop r reply) d (a, c, e) = (a, (subst WellFormed (sym c) d, ground (arith, c)))
  Plain-Keeps run (select r a) d p = absurd p

  pub try_target-Keeps :
      (bypass advances : Bool) (run : Run)
      → WellFormed run.cooldown
      → nul_free (row_account_id run.row) ≡ true
      → elsewhere run t account id ≡ true
      → Keeps account id time run (try_target w req bypass t advances o run)
  unfolding start_leg
  try_target-Keeps bypass advances run d own other =
      elim (try_target-SendsOrPlain w req bypass t advances o run) [
        | inl e ↦
            subst (Keeps account id time run) (sym e)
              (sent-Keeps run _ (response-Keeps (start_leg req t run) o.response d own other))
        | inr p ↦ Plain-Keeps run _ d p
      ]

-- ===== src/Proxy/Attempt.antt =====
-- internal/server/client.go: one turn of the loop over the candidates, from the check of the client's
-- context to the choice of the target.
use tiller_router.Prelude.{
  ℕ, String, str_eq, Bool, true, false, not, ◌&&◌, ◌||◌, Option, none, some, List, [], ◌∷◌, ◌++◌,
  ltb, leb, ◌==◌, if◌then◌else◌,
}
use tiller_router.Prelude.Text.{◌+++◌}
use tiller_router.Cooldown.{cooled}
use tiller_router.Inflight.{target_start, target_end}
use tiller_router.Fallback.{
  fallback_status, cooldown_trigger, Attempt, Row, ClientContext, client_failure_class, is_alive,
  open_cooldown, record_pre_output_failure,
}
use tiller_router.Fallback.Messages.{fixed_upstream_error_message}
use tiller_router.Proxy.{
  ordered, Untranslated, translation_code, Target, MinOutput, met, unreadable, below, Checks,
  Preflight, within, too_large, unread, Probe, usable, stream_error, empty, broken, Answer,
  Response, unreached, answered, Turn, World, Request, Run, Step, next, again, stop, select,
}

unfoldable pub member : String → List String → Bool
member x [] = false
member x (y ∷ ys) = str_eq x y || member x ys

abbrev pub attempt_of : Target → String → ℕ → String → Attempt
attempt_of t result status class = record {
  provider_model_id = t.candidate.provider_model_id;
  provider = t.candidate.provider_name;
  model = t.candidate.upstream_model_id;
  result = result;
  failure_class = class;
  http_status = status;
  recovered = false;
}

unfoldable pub add_attempt : Run → Attempt → Run
add_attempt run a = record run { row = record run.row { attempts = run.row.attempts ++ (a ∷ []) } }

abbrev pub first_reason : Option String → String → Option String
first_reason none class = some class
first_reason (some reason) class = some reason

unfoldable pub mark_fallback : Row → String → Row
mark_fallback row class = record row {
  fallback_used = true;
  fallback_reason = first_reason row.fallback_reason class;
}

-- `targetSkipped` only emits.
unfoldable pub record_skipped_attempt : Request → Run → Target → String → Bool → Run
unfolding add_attempt mark_fallback ordered
record_skipped_attempt req run t class advances =
    let run' = add_attempt run (attempt_of t "skipped" 0 class) in
    if advances && req.route.virtual && ordered req.route
    then record run' { row = mark_fallback run'.row class }
    else run'

-- An error reply without a look at the open stream.
unfoldable pub refuse : Run → ℕ → String → Step
refuse run status code =
    stop (record run { row = record run.row { http_status = status; error_text = some code } })
      (record { status = status; code = code; framed = false })

-- failAfterCommit, and inferenceError where it returns false
unfoldable pub fail_with : Run → ℕ → String → Step
fail_with run status code =
    stop (record run { row = record run.row { http_status = status; error_text = some code } })
      (record { status = status; code = code; framed = run.committed })

unfoldable pub client_gone : Run → String → Step
unfolding fail_with
client_gone run class =
    fail_with (record run { row = record run.row { fallback_reason = some class } }) 502 class

unfoldable pub fall_back : Run → String → Step
fall_back run class =
    next
      (record run { row = record run.row { fallback_used = true; fallback_reason = some class } })

unfoldable pub target_id : Target → String
target_id t =
    if str_eq t.candidate.provider_model_id ""
    then t.candidate.provider_name +++ "/" +++ t.candidate.upstream_model_id
    else t.candidate.provider_model_id

unfoldable pub start_leg : Request → Target → Run → Run
unfolding target_id
start_leg req t run = record run {
  tracker = (target_start run.tracker run.row.account_id req.route.route_model_id (target_id t)).0;
}

unfoldable pub end_leg : Request → Target → Run → Run
unfolding target_id
end_leg req t run = record run {
  tracker = (target_end run.tracker run.row.account_id req.route.route_model_id (target_id t)).0;
}

unfoldable pub configured : Request → Bool
unfolding ordered
configured req = ordered req.route && ltb 0 req.cooldown_seconds

-- The cooldown of the target, if one is due.
unfoldable pub cool : World → Request → Target → Turn → String → String → Bool → Run → Run
unfolding fixed_upstream_error_message
cool w req t o class message due run =
    if due
    then (record run {
      cooldown =
          open_cooldown run.cooldown t.candidate class run.row req.cooldown_seconds
            (fixed_upstream_error_message w.http_message message) o.failed_at;
    })
    else run

unfoldable pub unreached_class : Bool → ClientContext → String
unreached_class timed_out context =
    client_failure_class context (if timed_out then "upstream_timeout" else "upstream_unreachable")

-- upstreamClient.Do failed.
unfoldable pub on_unreached : World → Request → Target → Turn → Run → Bool → Step
unfolding add_attempt client_gone fail_with fall_back end_leg configured cool unreached_class
on_unreached w req t o run timed_out =
    let class = unreached_class timed_out o.context in
    let noted =
      add_attempt (record (end_leg req t run) { non_translation_failure = true })
        (attempt_of t "failed" 0 class) in
    let due = configured req && cooldown_trigger class 0 && is_alive o.context in
    let cooled_down = cool w req t o class class due noted in
    if not (is_alive o.context)
    then client_gone noted class
    else if not req.route.virtual
    then fail_with cooled_down 502 class
    else fall_back cooled_down class

unfoldable pub free_tier_rejection : Answer → Bool
free_tier_rejection a = a.body_read && a.free_tier

-- `class` of a response whose status is not 2xx.
unfoldable pub rejection_class : World → Answer → String
unfolding free_tier_rejection
rejection_class w a =
    if free_tier_rejection a
    then "free_tier_rejected"
    else if a.timed_out
    then "upstream_timeout"
    else if a.body_read && not a.body_empty && a.context_limit
    then "context_limit_exceeded"
    else if a.body_read && not a.body_empty && a.roundtrip
    then "reasoning_roundtrip_required"
    else w.http_class a.status

-- The reply of a route that does not go on after a rejection.
unfoldable pub reject : Run → Answer → String → Step
unfolding fail_with free_tier_rejection
reject run a class =
    if str_eq class "context_limit_exceeded" || str_eq class "reasoning_roundtrip_required"
    then fail_with run a.status class
    else if free_tier_rejection a
    then fail_with run 400 "free_tier_rejected"
    else fail_with run a.status "upstream_error"

-- Stale credentials: a 401 or 403 of an OAuth provider that was not refreshed in this request.
unfoldable pub recovers : Run → Target → Answer → Bool
unfolding member
recovers run t a =
    not (member t.provider_id run.refreshed)
    && (a.status == 401 || a.status == 403)
    && t.oauth
    && a.refreshes

unfoldable pub rejection_message : String → String
rejection_message class = if str_eq class "free_tier_rejected" then class else "upstream_error"

-- The status is not 2xx.
unfoldable pub on_rejected : World → Request → Target → Turn → Run → Answer → Step
unfolding add_attempt reject fall_back end_leg configured cool rejection_class recovers
    rejection_message
on_rejected w req t o run a =
    let class = rejection_class w a in
    let ended = record (end_leg req t run) { non_translation_failure = true } in
    let attempt = attempt_of t "failed" a.status class in
    let noted = add_attempt ended attempt in
    let due = configured req && cooldown_trigger class a.status in
    let cooled_down = cool w req t o class (rejection_message class) due noted in
    if recovers run t a
    then again (record (add_attempt ended (record attempt { recovered = true })) {
      refreshed = t.provider_id ∷ run.refreshed;
    })
    else if not req.route.virtual || not (fallback_status a.status)
    then reject cooled_down a class
    else fall_back cooled_down class

abbrev pub timeout_or : Bool → String → String
timeout_or timed_out class = if timed_out then "upstream_timeout" else class

-- `class` of a preflight that failed.
unfoldable pub preflight_class : Answer → ClientContext → Preflight → Option String
preflight_class a context within = none
preflight_class a context too_large = some "upstream_response_too_large"
preflight_class a context unread =
    some (client_failure_class context (timeout_or a.timed_out "upstream_read_error"))

unfoldable pub on_preflight_failure : World → Request → Target → Turn → Run → String → Step
unfolding add_attempt fail_with fall_back end_leg configured cool
on_preflight_failure w req t o run class =
    let noted =
      add_attempt
        (record (end_leg req t run) {
          non_translation_failure = true;
          terminal_preflight_class = class;
        })
        (attempt_of t "failed" 0 class) in
    let due = configured req && cooldown_trigger class 0 && is_alive o.context in
    let cooled_down = cool w req t o class class due noted in
    if not req.route.virtual || not (is_alive o.context)
    then fail_with cooled_down 502 class
    else fall_back cooled_down class

-- `class` of the probe, none for usable output.
unfoldable pub probe_class : Answer → ClientContext → Probe → Option String
probe_class a context usable = none
probe_class a context stream_error = some "upstream_stream_error"
probe_class a context empty = some "empty_response"
probe_class a context broken =
    some (client_failure_class context (timeout_or a.timed_out "upstream_read_error"))

abbrev pub text_or_empty : Option String → String
text_or_empty none = ""
text_or_empty (some s) = s

unfoldable pub goes_on_or_stops : Bool → Run → Step
goes_on_or_stops true run = next run
goes_on_or_stops false run = stop run (record {
  status = run.row.http_status;
  code = text_or_empty run.row.error_text;
  framed = run.committed;
})

-- recordPreOutputFailure, and what the loop does with its result.
unfoldable pub on_no_output : World → Request → Target → Turn → Run → Answer → String → Step
unfolding end_leg goes_on_or_stops fixed_upstream_error_message
on_no_output w req t o run a class =
    let ended = end_leg req t run in
    let (cooldown, row, goes_on) =
      record_pre_output_failure run.cooldown run.row t.candidate
        (attempt_of t "failed" a.status class) class req.cooldown_seconds o.context
        (fixed_upstream_error_message w.http_message class) o.failed_at in
    goes_on_or_stops goes_on
      (record ended { cooldown = cooldown; row = row; non_translation_failure = true })

unfoldable pub choose : Target → Run → Answer → Step
unfolding add_attempt
choose t run a = select (add_attempt run (attempt_of t "success" a.status "")) a

unfoldable pub after_probe : World → Request → Target → Turn → Run → Answer → Option String → Step
unfolding on_no_output choose
after_probe w req t o run a none = choose t run a
after_probe w req t o run a (some class) = on_no_output w req t o run a class

unfoldable pub after_preflight :
    World → Request → Target → Turn → Run → Answer → Option String → Step
unfolding on_preflight_failure choose after_probe ordered probe_class
after_preflight w req t o run a none =
    if req.route.virtual && ordered req.route
    then after_probe w req t o run a (probe_class a o.context a.probe)
    else choose t run a
after_preflight w req t o run a (some class) = on_preflight_failure w req t o run class

-- The early commit of the client's stream.
unfoldable pub commit : Request → Answer → Run → Run
unfolding ordered
commit req a run = record run {
  committed =
      run.committed
      || (req.route.virtual && ordered req.route && a.streaming && not req.non_streaming);
}

unfoldable pub on_response : World → Request → Target → Turn → Run → Response → Step
unfolding on_unreached on_rejected after_preflight commit preflight_class
on_response w req t o run (unreached timed_out) = on_unreached w req t o run timed_out
on_response w req t o run (answered a) =
    if ltb a.status 200 || leb 300 a.status
    then on_rejected w req t o run a
    else after_preflight w req t o (commit req a run) a (preflight_class a o.context a.preflight)

-- From the endpoint to the upstream's response.
unfoldable pub send : World → Request → Target → Turn → Run → Step
unfolding add_attempt start_leg on_response
send w req t o run =
    if not o.checks.has_endpoint
    then next (
        add_attempt (record run { non_translation_failure = true })
          (attempt_of t "failed" 0 "invalid_upstream"))
    else if not o.checks.builds
    then next run
    else on_response w req t o (start_leg req t run) o.response

unfoldable pub fit_min_output : World → Request → Target → Bool → Turn → Run → MinOutput → Step
unfolding refuse record_skipped_attempt send
fit_min_output w req t advances o run met = send w req t o run
fit_min_output w req t advances o run unreadable = refuse run 400 "invalid_request"
fit_min_output w req t advances o run below =
    if not req.route.virtual
    then refuse run 400 "unsupported_feature"
    else next (record_skipped_attempt req run t "unsupported_feature" advances)

unfoldable pub translate : World → Request → Target → Bool → Turn → Run → Option Untranslated → Step
unfolding refuse record_skipped_attempt fit_min_output translation_code
translate w req t advances o run none =
    if not o.checks.normalized
    then refuse run 400 "invalid_request"
    else fit_min_output w req t advances o run o.checks.min_output
translate w req t advances o run (some e) =
    let code = translation_code e in
    if not req.route.virtual
    then refuse run 400 code
    else next (
        record_skipped_attempt req (record run { translation_failure_class = code }) t code
          advances)

unfoldable pub requires_keyless : Target → Checks → Bool
requires_keyless t checks =
    not (str_eq t.credential "")
    && (str_eq t.provider_type "opencode-zen" || str_eq t.provider_type "opencode-go")
    && checks.free_model

-- The checks of the target behind its availability and cooldown.
unfoldable pub prepare : World → Request → Target → Bool → Turn → Run → Step
unfolding refuse record_skipped_attempt translate requires_keyless
prepare w req t advances o run =
    if requires_keyless t o.checks
    then if not req.route.virtual
      then refuse run 400 "free_model_requires_keyless"
      else next (
          record_skipped_attempt req (record run { non_translation_failure = true }) t
            "free_model_requires_keyless" advances)
    else if not o.checks.speaks
    then next (
        record_skipped_attempt req
          (record run { protocol_unavailable = true; non_translation_failure = true }) t
          "protocol_unavailable" advances)
    else translate w req t advances o run o.checks.translation

unfoldable pub is_skipped : Request → Bool → Target → Turn → Run → Bool
unfolding configured
is_skipped req bypass t o run =
    configured req
    && not bypass
    && cooled run.cooldown run.row.account_id t.candidate.provider_model_id o.now

-- One turn with what it finds.
unfoldable pub try_target : World → Request → Bool → Target → Bool → Turn → Run → Step
unfolding client_gone record_skipped_attempt prepare is_skipped
try_target w req bypass t advances o run =
    if not (is_alive o.started)
    then client_gone run (client_failure_class o.started "")
    else if not t.available
    then next (
        record_skipped_attempt req (record run { non_translation_failure = true }) t "unavailable"
          advances)
    else if is_skipped req bypass t o run
    then next
        (record_skipped_attempt req (record run { skipped_cooled = true }) t "cooldown" advances)
    else prepare w req t advances o run

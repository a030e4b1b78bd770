-- ===== src/Fallback.antt =====
-- internal/server/client.go: what a failed attempt does before any output: whether it opens a cooldown
-- for the target (`cooldownTrigger`), and how the request goes on (`recordPreOutputFailure`). The fixed
-- message of a class is an argument; the response that is written and the log lines are left out.
mod Opens
pub mod Messages
mod Examples
use tiller_router.Prelude.{
  ℕ, ◌+◌, ◌*◌, String, str_eq, Bool, true, false, not, ◌&&◌, ◌||◌, Option, none, some, List, [],
  ◌∷◌, ◌++◌, ltb, leb, ◌==◌, if◌then◌else◌,
}
use tiller_router.Cooldown.{CooldownStore, set}

unfoldable pub fallback_status : ℕ → Bool
fallback_status status = ltb status 200 || leb 300 status

-- The classes of the first switch.
abbrev pub target_class : String → Bool
target_class class =
    str_eq class "upstream_unreachable"
    || str_eq class "upstream_timeout"
    || str_eq class "upstream_read_error"
    || str_eq class "empty_response"
    || str_eq class "upstream_stream_error"

-- The statuses of the second switch.
abbrev pub request_status : ℕ → Bool
request_status status =
    status == 405 || status == 409 || status == 413 || status == 415 || status == 422

unfoldable pub cooldown_trigger : String → ℕ → Bool
cooldown_trigger class http_status =
    if str_eq class "context_limit_exceeded" || str_eq class "reasoning_roundtrip_required"
    then false
    else if target_class class
    then true
    else if http_status == 0
    then false
    else if request_status http_status
    then false
    else leb 400 http_status && ltb http_status 600

pub record Attempt : Type 0 where
  pub provider_model_id : String
  pub provider : String
  pub model : String
  pub result : String
  pub failure_class : String
  pub http_status : ℕ
  pub recovered : Bool

unfoldable pub all_skipped : List Attempt → Bool
all_skipped [] = true
all_skipped (a ∷ attempts) =
    str_eq a.result "skipped"
    && str_eq a.failure_class "unsupported_feature"
    && all_skipped attempts

unfoldable pub all_skipped_unsupported_feature : List Attempt → Bool
unfolding all_skipped
all_skipped_unsupported_feature [] = false
all_skipped_unsupported_feature (a ∷ attempts) = all_skipped (a ∷ attempts)

unfoldable pub all_failed_with : String → List Attempt → Bool
all_failed_with class [] = true
all_failed_with class (a ∷ attempts) =
    str_eq a.result "failed" && str_eq a.failure_class class && all_failed_with class attempts

unfoldable pub all_attempts_failure_class : String → List Attempt → Bool
unfolding all_failed_with
all_attempts_failure_class class [] = false
all_attempts_failure_class class (a ∷ attempts) = all_failed_with class (a ∷ attempts)

-- The fields of the log row that a failure changes.
pub record Row : Type 0 where
  pub account_id : String
  pub client_request_id : String
  pub attempts : List Attempt
  pub http_status : ℕ
  pub error_text : Option String
  pub fallback_used : Bool
  pub fallback_reason : Option String

-- The target of the attempt.
pub record Candidate : Type 0 where
  pub provider_model_id : String
  pub provider_name : String
  pub upstream_model_id : String

-- ctx.Err: the context lasts, its deadline has passed, or it was cancelled.
pub data ClientContext : Type 0 where
  alive deadline_exceeded cancelled : ClientContext

unfoldable pub client_failure_class : ClientContext → String → String
client_failure_class alive fallback = fallback
client_failure_class deadline_exceeded fallback = "client_timeout"
client_failure_class cancelled fallback = "client_cancelled"

abbrev pub local_account_id : String
local_account_id = "00000000-0000-0000-0000-000000000001"

unfoldable pub row_account_id : Row → String
row_account_id row = if str_eq row.account_id "" then local_account_id else row.account_id

abbrev pub second : ℕ
second = 1000000000

unfoldable pub open_cooldown :
    CooldownStore → Candidate → String → Row → ℕ → String → ℕ → CooldownStore
open_cooldown c candidate class row cooldown_seconds message failed_at =
    set c (row_account_id row) (record {
      provider_model_id = candidate.provider_model_id;
      until = failed_at + cooldown_seconds * second;
      started_at = failed_at;
      provider = candidate.provider_name;
      model = candidate.upstream_model_id;
      origin_request_log_id = row.client_request_id;
      origin_error_class = class;
      origin_error_message = message;
    })

abbrev pub is_alive : ClientContext → Bool
is_alive alive = true
is_alive deadline_exceeded = false
is_alive cancelled = false

unfoldable pub settle_row : Row → ClientContext → String → Row × Bool
settle_row row alive class =
    (record row { fallback_used = true; fallback_reason = some class }, true)
settle_row row deadline_exceeded class = (
  record row {
    http_status = 502;
    error_text = some "client_timeout";
    fallback_reason = some "client_timeout";
  },
  false,
)
settle_row row cancelled class = (
  record row {
    http_status = 502;
    error_text = some "client_cancelled";
    fallback_reason = some "client_cancelled";
  },
  false,
)

unfoldable pub record_pre_output_failure :
    CooldownStore
    → Row
    → Candidate
    → Attempt
    → String
    → ℕ
    → ClientContext
    → String
    → ℕ
    → CooldownStore × Row × Bool
record_pre_output_failure c row candidate attempt class cooldown_seconds context message failed_at =
    let row' = record row { attempts = row.attempts ++ (attempt ∷ []) } in
    let (settled, goes_on) = settle_row row' context class in
    let opened = open_cooldown c candidate class row' cooldown_seconds message failed_at in
    (
      if ltb 0 cooldown_seconds && cooldown_trigger class attempt.http_status && is_alive context
          then opened
          else c,
      settled,
      goes_on,
    )

-- ===== src/Fallback/Examples.antt =====
-- The failures at a target that is rate limited.
use tiller_router.Prelude.{
  ◌+◌, ◌*◌, str_eq, ◌≡◌, refl, true, false, ◌&&◌, ◌||◌, none, [], ltb, arith,
}
use tiller_router.Prelude.Text.{nul_free}
use tiller_router.Cooldown.{new_cooldown_store, cooled}
use tiller_router.Fallback.{
  cooldown_trigger, Attempt, Row, row_account_id, Candidate, alive, second,
  record_pre_output_failure,
}
use tiller_router.Fallback.Opens.{record_pre_output_failure-cools}

abbrev row : Row
row = record {
  account_id = "acc";
  client_request_id = "r1";
  attempts = [];
  http_status = 0;
  error_text = none;
  fallback_used = false;
  fallback_reason = none;
}

abbrev candidate : Candidate
candidate = record { provider_model_id = "m1"; provider_name = "p"; upstream_model_id = "main" }

abbrev attempt : Attempt
attempt = record {
  provider_model_id = "m1";
  provider = "p";
  model = "main";
  result = "failed";
  failure_class = "upstream_http_error";
  http_status = 429;
  recovered = false;
}

record_pre_output_failure-cools_example :
    ((record_pre_output_failure new_cooldown_store row candidate attempt "upstream_http_error" 60
        alive "" 1000).2
      ≡ true)
    × (cooled
          (record_pre_output_failure new_cooldown_store row candidate attempt "upstream_http_error"
            60 alive "" 1000).0
          "acc"
          "m1"
          2000
        ≡ (cooled new_cooldown_store "acc" "m1" 2000
            || (str_eq "acc" "acc" && str_eq "m1" "m1" && ltb 2000 (1000 + 60 * second))))
unfolding nul_free cooldown_trigger new_cooldown_store row_account_id
record_pre_output_failure-cools_example =
    record_pre_output_failure-cools new_cooldown_store row candidate attempt "upstream_http_error"
      "" 60 1000 "acc" "m1" 2000 tt refl refl (omega arith) refl (omega arith)

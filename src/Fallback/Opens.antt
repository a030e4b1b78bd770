-- ===== src/Fallback/Opens.antt =====
-- A failed attempt and the cooldown of its target.
use tiller_router.Prelude.{
  ℕ, ◌+◌, ◌*◌, ◌≤◌, ◌<◌, String, str_eq, ◌≡◌, refl, true, false, ◌&&◌, ◌||◌, [], ◌∷◌, ◌++◌, some,
  lt→ltb, ltb, arith,
}
use tiller_router.Prelude.Text.{nul_free}
use tiller_router.Prelude.Table.{Distinct}
use tiller_router.Cooldown.{CooldownEntry, CooldownStore, cooled}
use tiller_router.Cooldown.Windows.{cooled-set}
use tiller_router.Fallback.{
  cooldown_trigger, Attempt, Row, row_account_id, Candidate, ClientContext, alive,
  deadline_exceeded, cancelled, client_failure_class, second, is_alive, open_cooldown, settle_row,
  record_pre_output_failure,
}

-- In a cooldown map that holds no key twice, for accounts without NUL: while the client is there, a
-- failure that triggers a cooldown of some seconds lets the request go on to the next target, and
-- from the failure on the account's own target is out of the rotation until the seconds are over,
-- while every other target and account is cooling exactly if it was before.
pub record_pre_output_failure-cools :
    (c : CooldownStore) (row : Row) (candidate : Candidate) (attempt : Attempt)
    (class message : String) (seconds failed_at : ℕ) (account id : String) (t : ℕ)
    → Distinct c.until
    → nul_free (row_account_id row) ≡ true
    → nul_free account ≡ true
    → 0 < seconds
    → cooldown_trigger class attempt.http_status ≡ true
    → failed_at ≤ t
    → ((record_pre_output_failure c row candidate attempt class seconds alive message failed_at).2
        ≡ true)
      × (cooled
            (record_pre_output_failure c row candidate attempt class seconds alive message
              failed_at).0
            account
            id
            t
          ≡ (cooled c account id t
              || (str_eq (row_account_id row) account
                  && str_eq candidate.provider_model_id id
                  && ltb t (failed_at + seconds * second))))
unfolding record_pre_output_failure settle_row open_cooldown row_account_id
record_pre_output_failure-cools c row candidate attempt class message seconds failed_at account id t
      d own free positive triggers later =
    let entry : CooldownEntry = record {
      provider_model_id = candidate.provider_model_id;
      until = failed_at + seconds * second;
      started_at = failed_at;
      provider = candidate.provider_name;
      model = candidate.upstream_model_id;
      origin_request_log_id = row.client_request_id;
      origin_error_class = class;
      origin_error_message = message;
    } in
    (
      refl,
      rw (lt→ltb 0 seconds positive, triggers)
          (cooled-set c d (row_account_id row) entry account id t own free later),
    )

-- Once the client is gone, a failure never opens a cooldown: the store is as before, the attempt is
-- recorded, the row takes status 502 and the client's own failure class, and the request stops.
pub record_pre_output_failure-gone :
    (c : CooldownStore) (row : Row) (candidate : Candidate) (attempt : Attempt)
    (class message : String) (seconds failed_at : ℕ) (context : ClientContext)
    → is_alive context ≡ false
    → ((record_pre_output_failure c row candidate attempt class seconds context message failed_at).0
        ≡ c)
      × ((record_pre_output_failure c row candidate attempt class seconds context message
            failed_at).1
          ≡ record row {
            attempts = row.attempts ++ (attempt ∷ []);
            http_status = 502;
            error_text = some (client_failure_class context class);
            fallback_reason = some (client_failure_class context class);
          })
      × ((record_pre_output_failure c row candidate attempt class seconds context message
            failed_at).2
          ≡ false)
unfolding record_pre_output_failure settle_row client_failure_class
record_pre_output_failure-gone c row candidate attempt class message seconds failed_at alive gone =
    absurd (cc)
record_pre_output_failure-gone c row candidate attempt class message seconds failed_at
      deadline_exceeded gone =
    (ground arith, refl, refl)
record_pre_output_failure-gone c row candidate attempt class message seconds failed_at cancelled
      gone =
    (ground arith, refl, refl)

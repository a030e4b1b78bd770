-- ===== src/Proxy/Stores.antt =====
-- What the turns of a request do to the stores that all requests share: the cooldowns, and the legs of the
-- in-flight tracker.
use tiller_router.Prelude.{
  ℕ, ◌+◌, ◌-◌, ◌*◌, ◌≤◌, String, str_eq, eq_iff, ◌≡◌, refl, Bool, true, false, ◌&&◌, arith,
}
use tiller_router.Prelude.Text.{nul_free}
use tiller_router.Prelude.Table.{get, get-put, get-delete}
use tiller_router.Cooldown.{CooldownStore, CooldownEntry, cooled}
use tiller_router.Cooldown.Windows.{cooled-set}
use tiller_router.Cooldown.WellFormed.{WellFormed, WellFormed-set}
use tiller_router.Inflight.{InflightTracker, or_zero, inflight_target_key, target_start, target_end}
use tiller_router.Fallback.{Row, Candidate, row_account_id, open_cooldown, second}

-- The running requests on a leg.
unfoldable pub legs : InflightTracker → String → ℕ
legs tracker key = (or_zero (get tracker.target_states key)).active

abbrev pub one_if : Bool → ℕ
one_if true = 1
one_if false = 0

pub legs-target_start :
    (t : InflightTracker) (account route target key : String)
    → legs (target_start t account route target).0 key
      ≡ legs t key + one_if (str_eq (inflight_target_key account route target) key)
unfolding legs target_start
legs-target_start t account route target key =
    let own = inflight_target_key account route target in
    let state = or_zero (get t.target_states own) in
    ground (
      arith,
      eq_iff own key,
      get-put t.target_states own key (record state { active = state.active + 1 }),
    )

pub legs-target_end :
    (t : InflightTracker) (account route target key : String)
    → legs (target_end t account route target).0 key
      ≡ legs t key - one_if (str_eq (inflight_target_key account route target) key)
unfolding legs target_end
legs-target_end t account route target key =
    let own = inflight_target_key account route target in
    let state = or_zero (get t.target_states own) in
    ground (
      arith,
      eq_iff own key,
      get-put t.target_states own key (record state { active = state.active - 1 }),
      get-delete t.target_states own key,
    )

-- A cooldown that opens for another target or account.
pub open_cooldown-elsewhere :
    (c : CooldownStore) (candidate : Candidate) (class : String) (row : Row) (seconds : ℕ)
    (message : String) (failed_at : ℕ) (account id : String) (time : ℕ)
    → WellFormed c
    → nul_free (row_account_id row) ≡ true
    → nul_free account ≡ true
    → (str_eq (row_account_id row) account && str_eq candidate.provider_model_id id) ≡ false
    → failed_at ≤ time
    → let c' = open_cooldown c candidate class row seconds message failed_at in
      WellFormed c' × (cooled c' account id time ≡ cooled c account id time)
unfolding open_cooldown
open_cooldown-elsewhere c candidate class row seconds message failed_at account id time d own free
      other later =
    let entry : CooldownEntry = record {
      provider_model_id = candidate.provider_model_id;
      until = failed_at + seconds * second;
      started_at = failed_at;
      provider = candidate.provider_name;
      model = candidate.upstream_model_id;
      origin_request_log_id = row.client_request_id;
      origin_error_class = class;
      origin_error_message = message;
    } in
    (
      WellFormed-set c (row_account_id row) entry own d,
      ground (
        arith,
        cooled-set c d.distinct (row_account_id row) entry account id time own free later,
      ),
    )

-- The reading of the row's account is that of its id.
pub row_account_id-same :
    (row row' : Row) → row'.account_id ≡ row.account_id → row_account_id row' ≡ row_account_id row
unfolding row_account_id
row_account_id-same row row' e = rw e refl

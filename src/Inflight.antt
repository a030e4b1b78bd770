-- ===== src/Inflight.antt =====
-- internal/server/inflight.go: the tickets of running requests, per client key and route, and of the
-- target legs that they try. A method that emits returns what it emits, with the account.
mod Keys
mod History
mod Requests
mod Running
mod Ledger
pub mod Admission
mod Snapshots
mod Examples
use tiller_router.Prelude.{
  ℕ, ◌+◌, ◌-◌, String, str_eq, Bool, true, false, ◌&&◌, ◌||◌, Option, none, some, List, [], ◌∷◌,
  ltb, leb, ◌==◌, if◌then◌else◌,
}
use tiller_router.Prelude.Int.{ℤ, pos, negsuc}
use tiller_router.Prelude.Text.{has_prefix, cut_prefix, ◌+++◌, nul_text}
use tiller_router.Prelude.Table.{Table, get, put, delete, total}
use tiller_router.Tenant.{tenant_prefix}

pub record InflightState : Type 0 where
  pub active : ℕ
  pub streaming : ℕ
  pub requested_model : String
  pub resolved_model : String
  pub client_id : String
  pub route_id : String

pub record InflightDelta : Type 0 where
  pub id : String
  pub client_id : String
  pub target_id : String
  pub active : ℤ
  pub streaming : ℤ
  pub requested_model : String
  pub resolved_model : String
  pub result : String
  pub failure_class : String

pub record InflightTracker : Type 0 where
  pub client_states : Table InflightState
  pub target_states : Table InflightState

-- What `emit` is called with, in order.
abbrev pub Emitted : Type 0
Emitted = List (String × InflightDelta)

abbrev pub no_state : InflightState
no_state = record {
  active = 0;
  streaming = 0;
  requested_model = "";
  resolved_model = "";
  client_id = "";
  route_id = "";
}

abbrev pub no_delta : InflightDelta
no_delta = record {
  id = "";
  client_id = "";
  target_id = "";
  active = pos 0;
  streaming = pos 0;
  requested_model = "";
  resolved_model = "";
  result = "";
  failure_class = "";
}

abbrev pub new_tracker : InflightTracker
new_tracker = record { client_states = []; target_states = [] }

-- A read of a map at a missing key gives the zero value.
abbrev pub or_zero : Option InflightState → InflightState
or_zero none = no_state
or_zero (some s) = s

unfoldable pub inflight_client_key : String → String → String → String
inflight_client_key account id route = (((account +++ nul_text) +++ id) +++ nul_text) +++ route

unfoldable pub inflight_target_key : String → String → String → String
inflight_target_key account route target =
    (((account +++ nul_text) +++ route) +++ nul_text) +++ target

unfoldable pub client_start_locked :
    InflightTracker → String → String → String → String → InflightTracker
client_start_locked t account id route requested =
    let key = inflight_client_key account id route in
    let state = or_zero (get t.client_states key) in
    record t {
      client_states = put t.client_states key (record state {
        active = state.active + 1;
        requested_model = requested;
        client_id = id;
        route_id = route;
      });
    }

unfoldable pub client_start :
    InflightTracker → String → String → String → String → InflightTracker × Emitted
client_start t account id route requested = (
  client_start_locked t account id route requested,
  (
    account,
    record no_delta { id = route; client_id = id; active = pos 1; requested_model = requested },
  )
      ∷ [],
)

abbrev pub active_in : String → String → InflightState → ℕ
active_in account key s = if has_prefix key (tenant_prefix account) then s.active else 0

unfoldable pub active_client_requests_locked : InflightTracker → String → ℕ
active_client_requests_locked t account = total (active_in account) t.client_states

-- limit >= 0 && count >= limit
abbrev pub at_limit : ℤ → ℕ → Bool
at_limit (pos limit) count = leb limit count
at_limit (negsuc n) count = false

unfoldable pub try_acquire :
    InflightTracker → String → ℤ → String → String → String → InflightTracker × Bool × Emitted
unfolding client_start
try_acquire t account limit id route requested =
    if at_limit limit (active_client_requests_locked t account)
    then (t, false, [])
    else (let (t', emitted) = client_start t account id route requested in (t', true, emitted))

unfoldable pub client_streaming :
    InflightTracker → String → String → String → InflightTracker × Emitted
client_streaming t account id route =
    let key = inflight_client_key account id route in
    let state = or_zero (get t.client_states key) in
    (
      record t {
        client_states =
            put t.client_states key
              (record state { streaming = state.streaming + 1; client_id = id; route_id = route });
      },
      (account, record no_delta { id = route; client_id = id; streaming = pos 1 }) ∷ [],
    )

unfoldable pub client_resolved :
    InflightTracker → String → String → String → String → InflightTracker × Emitted
client_resolved t account id route resolved =
    let key = inflight_client_key account id route in
    let state = or_zero (get t.client_states key) in
    if str_eq resolved "" then (t, []) else (
      record t {
        client_states =
            put t.client_states key
              (record state { resolved_model = resolved; client_id = id; route_id = route });
      },
      (account, record no_delta { id = route; client_id = id; resolved_model = resolved }) ∷ [],
    )

abbrev pub one_less : Bool → ℤ
one_less true = negsuc 0
one_less false = pos 0

-- The state after the decrements, and which of the two counters went down.
unfoldable pub release : InflightState → Bool → InflightState × Bool × Bool
release state streamed =
    let released = ltb 0 state.active in
    let stream_released = streamed && ltb 0 state.streaming in
    (
      record state {
        active = if released then state.active - 1 else state.active;
        streaming = if stream_released then state.streaming - 1 else state.streaming;
      },
      released,
      stream_released,
    )

unfoldable pub store_or_drop : Table InflightState → String → InflightState → Table InflightState
store_or_drop m key state =
    if state.active == 0 && state.streaming == 0 then delete m key else put m key state

unfoldable pub client_end :
    InflightTracker → String → String → String → Bool → InflightTracker × Emitted
client_end t account id route streamed =
    let key = inflight_client_key account id route in
    let state = or_zero (get t.client_states key) in
    let (state', released, stream_released) = release state streamed in
    if state.active == 0 && state.streaming == 0 then (t, []) else (
      record t { client_states = store_or_drop t.client_states key state' },
      (
        account,
        record no_delta {
          id = route;
          client_id = id;
          active = one_less released;
          streaming = one_less stream_released;
        },
      )
          ∷ [],
    )

unfoldable pub target_start : InflightTracker → String → String → String → InflightTracker × Emitted
target_start t account route target =
    let key = inflight_target_key account route target in
    let state = or_zero (get t.target_states key) in
    (
      record t {
        target_states = put t.target_states key (record state { active = state.active + 1 });
      },
      (account, record no_delta { id = route; target_id = target; active = pos 1 }) ∷ [],
    )

unfoldable pub target_end : InflightTracker → String → String → String → InflightTracker × Emitted
target_end t account route target =
    let key = inflight_target_key account route target in
    let state = or_zero (get t.target_states key) in
    let state' = record state { active = state.active - 1 } in
    if state.active == 0 then (t, []) else (
      record t {
        target_states =
            if state'.active == 0
            then delete t.target_states key
            else put t.target_states key state';
      },
      (account, record no_delta { id = route; target_id = target; active = negsuc 0 }) ∷ [],
    )

unfoldable pub target_skipped : String → String → String → String → String → Emitted
target_skipped account route client target failure =
    if str_eq route "" || str_eq target ""
    then []
    else (
      account,
      record no_delta {
        id = route;
        client_id = client;
        target_id = target;
        result = "skipped";
        failure_class = failure;
      },
    )
      ∷ []

-- The loops of the snapshots: `pick` is what the body does with an entry whose key has the prefix.
unfoldable pub snapshot_from :
    (String → InflightState → Table InflightState → Table InflightState)
    → String
    → Table InflightState
    → Table InflightState
    → Table InflightState
snapshot_from pick account [] out = out
snapshot_from pick account ((key, state) ∷ m) out =
    snapshot_from pick account m
      (if has_prefix key (tenant_prefix account) then pick key state out else out)

-- out[key[len(prefix):]] = state
abbrev pub copy_state : String → String → InflightState → Table InflightState → Table InflightState
copy_state account key state out = put out (cut_prefix key (tenant_prefix account)) state

unfoldable pub client_route_snapshot : InflightTracker → String → Table InflightState
unfolding snapshot_from
client_route_snapshot t account = snapshot_from (copy_state account) account t.client_states []

unfoldable pub target_snapshot : InflightTracker → String → Table InflightState
unfolding snapshot_from
target_snapshot t account = snapshot_from (copy_state account) account t.target_states []

unfoldable pub fold_client : String → InflightState → Table InflightState → Table InflightState
fold_client key state out =
    let agg = or_zero (get out state.client_id) in
    if str_eq state.client_id ""
    then out
    else put out state.client_id (record agg {
      active = agg.active + state.active;
      streaming = agg.streaming + state.streaming;
    })

unfoldable pub client_snapshot : InflightTracker → String → Table InflightState
unfolding snapshot_from fold_client
client_snapshot t account = snapshot_from fold_client account t.client_states []

-- ===== src/Quota.antt =====
-- internal/server/client.go (`beginClientRequest`) and internal/store/usage_counters.go: the plan's
-- concurrency and monthly limits, reserved before any upstream work. The table `usage_counters` is a
-- function of account and period, zero where there is no row. Whether a query fails is an argument.
mod Cap
mod Rejected
mod Examples
use tiller_router.Prelude.{
  ℕ, zero, suc, ◌+◌, ◌-◌, String, str_eq, Bool, true, false, not, ◌&&◌, ◌||◌, Option, none, some,
  List, [], ◌∷◌, ltb, leb, ◌==◌, if◌then◌else◌,
}
use tiller_router.Prelude.Int.{ℤ, pos, negsuc}
use tiller_router.Inflight.{InflightTracker, try_acquire, client_end}

-- store.Unlimited
abbrev pub unlimited : ℤ
unlimited = negsuc 0

abbrev pub is_unlimited : ℤ → Bool
is_unlimited (pos n) = false
is_unlimited (negsuc n) = n == 0

abbrev pub Counters : Type 0
Counters = String → String → ℕ

-- requests=requests+1 in the one row
unfoldable pub bump : Counters → String → String → Counters
bump c account period account' period' =
    if str_eq account account' && str_eq period period'
    then c account' period' + 1
    else c account' period'

unfoldable pub increment_usage_counter : Counters → String → String → Bool → Counters
increment_usage_counter c account period fails = if fails then c else bump c account period

pub data Reservation : Type 0 where
  reserved refused reservation_failed : Reservation

-- The transaction: the update applies where requests < limit.
unfoldable pub reserve_below : Counters → String → String → ℕ → Counters × Reservation
reserve_below c account period limit =
    if ltb (c account period) limit then (bump c account period, reserved) else (c, refused)

unfoldable pub reserve_usage_counter :
    Counters → String → String → ℤ → Bool → Counters × Reservation
unfolding reserve_below
reserve_usage_counter c account period (pos limit) fails =
    if fails then (c, reservation_failed) else reserve_below c account period limit
reserve_usage_counter c account period (negsuc n) fails =
    if n == 0 then (c, reserved) else (c, refused)

pub record Plan : Type 0 where
  pub max_concurrent_streams : ℤ
  pub monthly_requests : ℤ

pub record Gate : Type 0 where
  pub tracker : InflightTracker
  pub counters : Counters

-- `proceed` is the return value false; the others have written their response.
pub data Admission : Type 0 where
  proceed quota_unavailable stream_limit_exceeded monthly_limit_exceeded : Admission

-- A request, and what the queries it makes answer: the plan lookup (`none` is an error), and whether the
-- counter query fails. `enforcing` is hosted mode with limits enforced.
pub record Request : Type 0 where
  pub account : String
  pub id : String
  pub route : String
  pub requested : String
  pub period : String
  pub enforcing : Bool
  pub plan : Option Plan
  pub counter_fails : Bool

-- The second half: the ticket has been started.
unfoldable pub charge_month : Gate → Request → ℤ → Gate × Admission
charge_month g r monthly =
    let (counters, outcome) =
      reserve_usage_counter g.counters r.account r.period monthly r.counter_fails in
    let ended = record g { tracker = (client_end g.tracker r.account r.id r.route false).0 } in
    if is_unlimited monthly
    then (
      record g { counters = increment_usage_counter g.counters r.account r.period r.counter_fails },
      proceed,
    )
    else elim outcome [
      | reserved ↦ (record g { counters = counters }, proceed)
      | refused ↦ (ended, monthly_limit_exceeded)
      | reservation_failed ↦ (ended, quota_unavailable)
    ]

unfoldable pub reserve_plan : Gate → Request → Option Plan → Gate × Admission
unfolding charge_month
reserve_plan g r none = (g, quota_unavailable)
reserve_plan g r (some plan) =
    let (tracker, acquired, _) =
      try_acquire g.tracker r.account plan.max_concurrent_streams r.id r.route r.requested in
    let charged = charge_month (record g { tracker = tracker }) r plan.monthly_requests in
    if acquired then charged else (g, stream_limit_exceeded)

unfoldable pub begin_client_request : Gate → Request → Gate × Admission
unfolding reserve_plan
begin_client_request g r = if r.enforcing then reserve_plan g r r.plan else (
  record g { tracker = (try_acquire g.tracker r.account unlimited r.id r.route r.requested).0 },
  proceed,
)

-- ===== src/Quota/Examples.antt =====
-- The limits at a plan of two requests a month, one at a time.
use tiller_router.Prelude.{
  ◌+◌, ◌≤◌, String, ◌≡◌, ◌≢◌, refl, true, false, some, List, [], ◌∷◌, arith,
}
use tiller_router.Prelude.Int.{pos}
use tiller_router.Prelude.Table.{total}
use tiller_router.Inflight.{new_tracker, active_client_requests_locked, try_acquire}
use tiller_router.Quota.{
  Plan, Gate, proceed, monthly_limit_exceeded, Request, begin_client_request, reserve_plan,
  charge_month, reserve_usage_counter, reserve_below,
}
use tiller_router.Quota.Cap.{run, admitted, run-monthly_cap}
use tiller_router.Quota.Rejected.{SameLoad, begin-rejected}

abbrev gate : Gate
gate = record { tracker = new_tracker; counters = λ account period. 0 }

abbrev spent : Gate
spent = record { tracker = new_tracker; counters = λ account period. 2 }

abbrev request : Request
request = record {
  account = "acc";
  id = "key";
  route = "route";
  requested = "main";
  period = "2026-01";
  enforcing = true;
  plan = some (record { max_concurrent_streams = pos 5; monthly_requests = pos 2 });
  counter_fails = false;
}

abbrev requests : List Request
requests =
    request
    ∷ record request { counter_fails = true }
    ∷ record request { account = "other" }
    ∷ request
    ∷ request
    ∷ []

two_a_month : (plan : Plan) → request.plan ≡ some plan → plan.monthly_requests ≡ pos 2
two_a_month plan found = ground (arith, found)

run-monthly_cap_example :
    ((run gate requests).counters "acc" "2026-01" ≡ 0 + admitted "acc" "2026-01" gate requests)
    × (0 ≤ 2 → (run gate requests).counters "acc" "2026-01" ≤ 2)
run-monthly_cap_example = run-monthly_cap "acc" "2026-01" 2 gate requests (
  λ h. (refl, two_a_month),
  (
    λ h. (refl, two_a_month),
    (λ h. (refl, two_a_month), (λ h. (refl, two_a_month), (λ h. (refl, two_a_month), tt))),
  ),
)

month_refuses : (begin_client_request spent request).1 ≡ monthly_limit_exceeded
unfolding begin_client_request reserve_plan charge_month reserve_usage_counter reserve_below
    try_acquire active_client_requests_locked total
month_refuses = refl

month_spent : (begin_client_request spent request).1 ≢ proceed
month_spent = rw month_refuses (λ h. cc)

begin-rejected_example :
    SameLoad spent (begin_client_request spent request).0
    × ((account period : String)
        → (begin_client_request spent request).0.counters account period ≡ 2)
begin-rejected_example = begin-rejected spent request tt month_spent

-- ===== src/Quota/Rejected.antt =====
-- A request that is not admitted leaves no ticket behind.
use tiller_router.Prelude.{
  ◌+◌, String, eq_iff, ◌≡◌, ◌≢◌, refl, ap, ◌∙◌, true, false, Option, none, some, arith, Bool-cases,
  inl, inr,
}
use tiller_router.Prelude.Int.{ℤ, pos, negsuc}
use tiller_router.Prelude.Table.{get, put, Distinct, get-put, total-put, Distinct-put}
use tiller_router.Inflight.{
  InflightState, InflightTracker, or_zero, inflight_client_key, active_in, client_start_locked,
  client_start, active_client_requests_locked, try_acquire, release, client_end,
}
use tiller_router.Inflight.Admission.{total-store_or_drop}
use tiller_router.Quota.{
  Counters, reserve_below, reserve_usage_counter, Plan, Gate, proceed, Request, charge_month,
  reserve_plan, begin_client_request,
}

-- A ticket that is started and ended at once counts as before.
started_and_ended :
    (t : InflightTracker) (a i r m other : String)
    → Distinct t.client_states
    → active_client_requests_locked (client_end (client_start t a i r m).0 a i r false).0 other
      ≡ active_client_requests_locked t other
unfolding client_end client_start client_start_locked release active_client_requests_locked
started_and_ended t a i r m other d =
    let key = inflight_client_key a i r in
    let old = or_zero (get t.client_states key) in
    let s' : InflightState = record old {
      active = old.active + 1;
      requested_model = m;
      client_id = i;
      route_id = r;
    } in
    let found = get-put t.client_states key key s' in
    let up = total-put (active_in other) t.client_states key s' in
    let down =
      total-store_or_drop other key (put t.client_states key s') (release s' false).0
        (Distinct-put t.client_states key s' d) in
    ground (arith, found, up, down, eq_iff key key)

-- The running requests of every account are as before.
abbrev pub SameLoad : Gate → Gate → Type 0
SameLoad g g' =
    (other : String)
    → active_client_requests_locked g'.tracker other ≡ active_client_requests_locked g.tracker other

-- The month refuses: the ticket is ended, and nothing is charged.
charge_month-rejected :
    (g : Gate) (r : Request) (monthly : ℤ)
    → (charge_month g r monthly).1 ≢ proceed
    → ((charge_month g r monthly).0.tracker ≡ (client_end g.tracker r.account r.id r.route false).0)
      × ((charge_month g r monthly).0.counters ≡ g.counters)
unfolding charge_month reserve_usage_counter reserve_below
charge_month-rejected g r (pos n) rejected = (ground (arith, rejected), ground (arith, rejected))
charge_month-rejected g r (negsuc n) rejected = (ground (arith, rejected), ground (arith, rejected))

acquired-tracker :
    (t : InflightTracker) (account : String) (limit : ℤ) (id route requested : String)
    → (try_acquire t account limit id route requested).1 ≡ true
    → (try_acquire t account limit id route requested).0
      ≡ (client_start t account id route requested).0
unfolding try_acquire
acquired-tracker t account limit id route requested h = ground (arith, h)

abbrev Undone : Gate → Gate → Type 0
Undone g g' =
    SameLoad g g'
    × ((account period : String) → g'.counters account period ≡ g.counters account period)

reserve_plan-rejected :
    (g : Gate) (r : Request) (found : Option Plan)
    → Distinct g.tracker.client_states
    → (reserve_plan g r found).1 ≢ proceed
    → Undone g (reserve_plan g r found).0
unfolding reserve_plan
reserve_plan-rejected g r none d = λ rejected. (λ other. refl, λ account period. refl)
reserve_plan-rejected g r (some plan) d =
    let attempt =
      try_acquire g.tracker r.account plan.max_concurrent_streams r.id r.route r.requested in
    let started =
      acquired-tracker g.tracker r.account plan.max_concurrent_streams r.id r.route r.requested in
    let month = charge_month-rejected (record g { tracker = attempt.0 }) r plan.monthly_requests in
    elim (Bool-cases attempt.1) [
      | inr full ↦ rw full (λ rejected. (λ other. refl, λ account period. refl))
      | inl acquired ↦ rw acquired (λ rejected. (
        λ other.
            ap (λ (t : InflightTracker). active_client_requests_locked t other) (month rejected).0
            ∙ ap
                (λ (t : InflightTracker).
                  active_client_requests_locked (client_end t r.account r.id r.route false).0 other)
                (started acquired)
            ∙ started_and_ended g.tracker r.account r.id r.route r.requested other d,
        λ account period. ap (λ (c : Counters). c account period) (month rejected).1,
      ))
    ]

-- In a tracker that holds no ticket twice: a request that is not let through leaves the running
-- requests of every account and every monthly counter as they were; the ticket that it held while
-- the month was checked is released.
pub begin-rejected :
    (g : Gate) (r : Request)
    → Distinct g.tracker.client_states
    → (begin_client_request g r).1 ≢ proceed
    → SameLoad g (begin_client_request g r).0
      × ((account period : String)
          → (begin_client_request g r).0.counters account period ≡ g.counters account period)
unfolding begin_client_request
begin-rejected g r d = elim (Bool-cases r.enforcing) [
  | inl enforced ↦ rw enforced (reserve_plan-rejected g r r.plan d)
  | inr free ↦ rw free (λ rejected. absurd (rejected refl))
]

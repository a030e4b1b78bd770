-- ===== src/Quota/Cap.antt =====
-- The monthly limit over any sequence of requests.
use mathlib.Core.Path.{subst, sym}
use tiller_router.Prelude.{
  ℕ, ◌+◌, ◌≤◌, String, str_eq, eq_iff, ◌≡◌, refl, Bool, true, false, ◌&&◌, Option, none, some, List,
  [], ◌∷◌, if◌then◌else◌, arith, Bool-cases, inl, inr,
}
use tiller_router.Prelude.Int.{ℤ, pos, negsuc}
use tiller_router.Inflight.{try_acquire}
use tiller_router.Quota.{
  bump, increment_usage_counter, reserve_below, reserve_usage_counter, Plan, Gate, Admission,
  proceed, quota_unavailable, stream_limit_exceeded, monthly_limit_exceeded, Request, charge_month,
  reserve_plan, begin_client_request,
}

unfoldable pub run : Gate → List Request → Gate
run g [] = g
run g (r ∷ rs) = run (begin_client_request g r).0 rs

abbrev pub proceeds : Admission → Bool
proceeds proceed = true
proceeds quota_unavailable = false
proceeds stream_limit_exceeded = false
proceeds monthly_limit_exceeded = false

abbrev pub counts_for : String → String → Request → Bool
counts_for account period r = str_eq r.account account && str_eq r.period period

-- How many of the requests of the account in the period were let through.
unfoldable pub admitted : String → String → Gate → List Request → ℕ
admitted account period g [] = 0
admitted account period g (r ∷ rs) =
    (if counts_for account period r && proceeds (begin_client_request g r).1 then 1 else 0)
    + admitted account period (begin_client_request g r).0 rs

-- The request, if it is one of the account in the period, is enforced under a monthly limit of n
-- (unless its plan cannot be read).
abbrev pub Limited : String → String → ℕ → Request → Type 0
Limited account period n r =
    counts_for account period r ≡ true
    → (r.enforcing ≡ true) × ((plan : Plan) → r.plan ≡ some plan → plan.monthly_requests ≡ pos n)

abbrev pub AllLimited : String → String → ℕ → List Request → Type 0
AllLimited account period n [] = Unit
AllLimited account period n (r ∷ rs) = Limited account period n r × AllLimited account period n rs

-- The reservation charges exactly what it lets through, and stops at the limit.
charge_month-counters :
    (g : Gate) (r : Request) (account period : String) (n : ℕ)
    → counts_for account period r ≡ true
    → ((charge_month g r (pos n)).0.counters account period
        ≡ g.counters account period + (if proceeds (charge_month g r (pos n)).1 then 1 else 0))
      × (g.counters account period ≤ n → (charge_month g r (pos n)).0.counters account period ≤ n)
unfolding charge_month reserve_usage_counter reserve_below bump
charge_month-counters g r account period n mine =
    let accounts : r.account ≡ account = ground (arith, eq_iff r.account account, mine) in
    let periods : r.period ≡ period = ground (arith, eq_iff r.period period, mine) in
    (ground (arith, accounts, periods, mine), ground (arith, accounts, periods, mine))

other_counters :
    (g : Gate) (r : Request) (account period : String) (monthly : ℤ)
    → counts_for account period r ≡ false
    → (charge_month g r monthly).0.counters account period ≡ g.counters account period
unfolding charge_month reserve_usage_counter reserve_below bump increment_usage_counter
other_counters g r account period (pos n) other = ground (arith, other)
other_counters g r account period (negsuc n) other = ground (arith, other)

-- What a request does to the counter of the account in the period.
abbrev Charged : String → String → ℕ → Gate → Request → Gate × Admission → Type 0
Charged account period n g r (g', outcome) =
    (g'.counters account period
      ≡ g.counters account period
        + (if counts_for account period r && proceeds outcome then 1 else 0))
    × (g.counters account period ≤ n → g'.counters account period ≤ n)

charge_month-Charged :
    (g : Gate) (r : Request) (account period : String) (n : ℕ) (monthly : ℤ)
    → (counts_for account period r ≡ true → monthly ≡ pos n)
    → Charged account period n g r (charge_month g r monthly)
charge_month-Charged g r account period n monthly limited =
    elim (Bool-cases (counts_for account period r)) [
      | inl mine ↦
          subst (λ (m : ℤ). Charged account period n g r (charge_month g r m)) (sym (limited mine))
            (let both = charge_month-counters g r account period n mine in
              (ground (arith, both.0, mine), both.1))
      | inr other ↦
          let same = other_counters g r account period monthly other in
          (ground (arith, same, other), λ h. omega (arith, same, h))
    ]

reserve_plan-Charged :
    (g : Gate) (r : Request) (account period : String) (n : ℕ) (found : Option Plan)
    → ((plan : Plan)
        → counts_for account period r ≡ true
        → found ≡ some plan
        → plan.monthly_requests ≡ pos n)
    → Charged account period n g r (reserve_plan g r found)
unfolding reserve_plan
reserve_plan-Charged g r account period n none limited = (ground arith, λ h. h)
reserve_plan-Charged g r account period n (some plan) limited =
    let attempt =
      try_acquire g.tracker r.account plan.max_concurrent_streams r.id r.route r.requested in
    let charged =
      charge_month-Charged (record g { tracker = attempt.0 }) r account period n
        plan.monthly_requests (λ mine. limited plan mine refl) in
    elim (Bool-cases attempt.1) [
      | inl acquired ↦ rw acquired charged
      | inr full ↦ rw full (ground arith, λ h. h)
    ]

begin-Charged :
    (account period : String) (n : ℕ) (g : Gate) (r : Request)
    → Limited account period n r
    → Charged account period n g r (begin_client_request g r)
unfolding begin_client_request
begin-Charged account period n g r limited = elim (Bool-cases r.enforcing) [
  | inl enforced ↦ rw enforced (
      reserve_plan-Charged g r account period n r.plan
        (λ plan mine found. (limited mine).1 plan found))
  | inr free ↦ rw free (ground (arith, free, limited), λ h. h)
]

-- Where every request of an account in a month is enforced under a monthly limit of n, whatever other
-- requests come between and whatever queries fail, the counter of the month rises by one for exactly
-- each request that is let through, and if it starts at most at n it never passes n.
pub run-monthly_cap :
    (account period : String) (n : ℕ) (g : Gate) (rs : List Request)
    → AllLimited account period n rs
    → ((run g rs).counters account period
        ≡ g.counters account period + admitted account period g rs)
      × (g.counters account period ≤ n → (run g rs).counters account period ≤ n)
unfolding run admitted
run-monthly_cap account period n g [] limited = (omega arith, λ h. h)
run-monthly_cap account period n g (r ∷ rs) limited =
    let first = begin-Charged account period n g r limited.0 in
    let rest = run-monthly_cap account period n (begin_client_request g r).0 rs limited.1 in
    (omega (arith, first.0, rest.0), λ h. rest.1 (first.1 h))

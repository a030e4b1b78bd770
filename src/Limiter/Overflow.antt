-- ===== src/Limiter/Overflow.antt =====
-- The shared budget that meters unknown keys while a table is full of active lockouts.
use mathlib.Core.Path.{subst}
use tiller_router.Prelude.{
  ℕ, zero, suc, ◌+◌, ◌-◌, ◌≤◌, ◌<◌, ◌≡◌, ◌⊎◌, ◌≢◌, refl, ap, Bool, true, false, List, [], ◌∷◌,
  arith,
}
use tiller_router.Limiter.{LoginLimiter, charge_overflow, overflow_allow}
use tiller_router.Limiter.Budget.{AllIn, first_allowed}

-- The answers of the shared overflow budget to one request at each of the times.
unfoldable pub overflow_all : LoginLimiter → List ℕ → List Bool
overflow_all l [] = []
overflow_all l (now ∷ times) =
    let (l', allowed) = overflow_allow l now in allowed ∷ overflow_all l' times

overflow-Spent :
    (l : LoginLimiter) (first : ℕ) (times : List ℕ)
    → AllIn first l.window l.lockout times
    → first + l.lockout ≤ l.overflow.until
    → overflow_all l times ≡ first_allowed 0 times
unfolding overflow_all first_allowed
overflow-Spent l first [] within spent = refl
overflow-Spent l first (now ∷ times) within spent =
    let refused : overflow_allow l now ≡ (l, false) = unfold overflow_allow in ground arith in
    rw refused (ap (λ (bs : List Bool). false ∷ bs) (overflow-Spent l first times within.1 spent))

-- One more charge on an open budget.
overflow-allowed :
    (l : LoginLimiter) (first n now : ℕ)
    → l.overflow ≡ record { count = n; first = first; until = 0 }
    → 0 < n
    → n < l.max
    → now ≤ first + l.window
    → overflow_allow l now
      ≡ (record l { overflow = record { count = n + 1; first = first; until = 0 } }, true)
unfolding overflow_allow charge_overflow
overflow-allowed l first n now charged positive below within = ground arith

-- The charge past the budget closes it.
overflow-refused :
    (l : LoginLimiter) (first n now : ℕ)
    → l.overflow ≡ record { count = n; first = first; until = 0 }
    → 0 < n
    → n ≡ l.max
    → now ≤ first + l.window
    → overflow_allow l now ≡ (
      record l { overflow = record { count = n + 1; first = first; until = now + l.lockout } },
      false,
    )
unfolding overflow_allow charge_overflow
overflow-refused l first n now charged positive full within = ground arith

overflow-Charged :
    (l : LoginLimiter) (first n k : ℕ) (times : List ℕ)
    → l.overflow ≡ record { count = n; first = first; until = 0 }
    → 0 < n
    → n + k ≡ l.max
    → AllIn first l.window l.lockout times
    → overflow_all l times ≡ first_allowed k times
unfolding overflow_all first_allowed
overflow-Charged l first n k [] charged positive left within = refl
overflow-Charged l first n zero (now ∷ times) charged positive left within =
    rw (overflow-refused l first n now charged positive (omega arith) within.0.1) (
      ap (λ (bs : List Bool). false ∷ bs)
        (overflow-Spent
          (record l { overflow = record { count = n + 1; first = first; until = now + l.lockout } })
          first times within.1 (omega (arith, within.0))))
overflow-Charged l first n (suc k) (now ∷ times) charged positive left within =
    rw (overflow-allowed l first n now charged positive (omega arith) within.0.1) (
      ap (λ (bs : List Bool). true ∷ bs)
        (overflow-Charged
          (record l { overflow = record { count = n + 1; first = first; until = 0 } }) first (n + 1)
          k times refl (omega arith) (omega arith) within.1))

overflow-first :
    (l : LoginLimiter) (first : ℕ)
    → l.overflow.until ≤ first
    → (l.overflow.count ≡ 0) ⊎ (l.overflow.first + l.window < first) ⊎ (l.overflow.until ≢ 0)
    → 0 < l.max
    → overflow_allow l first
      ≡ (record l { overflow = record { count = 1; first = first; until = 0 } }, true)
unfolding overflow_allow charge_overflow
overflow-first l first over fresh positive = ground arith

overflow-start :
    (l : LoginLimiter) (first k : ℕ) (times : List ℕ)
    → l.overflow.until ≤ first
    → (l.overflow.count ≡ 0) ⊎ (l.overflow.first + l.window < first) ⊎ (l.overflow.until ≢ 0)
    → suc k ≡ l.max
    → AllIn first l.window l.lockout times
    → overflow_all l (first ∷ times) ≡ first_allowed (suc k) (first ∷ times)
unfolding overflow_all first_allowed
overflow-start l first k times over fresh left within =
    rw (overflow-first l first over fresh (omega arith)) (
      ap (λ (bs : List Bool). true ∷ bs)
        (overflow-Charged (record l { overflow = record { count = 1; first = first; until = 0 } })
          first 1 k times refl (omega arith) (omega arith) within))

-- Under a positive budget `max`, while the shared budget meters: of the first request after its
-- lockout or its window is over, or before any, and any further ones within the window, as long as a
-- lockout would last, exactly the first `max` are let through.
pub overflow_exact :
    (l : LoginLimiter) (first : ℕ) (times : List ℕ)
    → l.overflow.until ≤ first
    → (l.overflow.count ≡ 0) ⊎ (l.overflow.first + l.window < first) ⊎ (l.overflow.until ≢ 0)
    → 0 < l.max
    → AllIn first l.window l.lockout times
    → overflow_all l (first ∷ times) ≡ first_allowed l.max (first ∷ times)
overflow_exact l first times over fresh positive within =
    subst (λ (m : ℕ). overflow_all l (first ∷ times) ≡ first_allowed m (first ∷ times))
      (omega arith) (overflow-start l first (l.max - 1) times over fresh (omega arith) within)

-- ===== src/Virtual/Examples.antt =====
-- A virtual model of two targets, of which one does not say whether it sees.
use tiller_router.Prelude.{ℕ, ◌≡◌, Option, some, List, [], ◌∷◌}
use tiller_router.Prelude.Int.{ℤ, pos}
use tiller_router.Virtual.{aggregate_limit}
use tiller_router.Virtual.Limits.{AllAtLeast, AnyIs, aggregate_limit-least}

abbrev limits : List (Option ℤ)
limits = some (pos 8000) ∷ some (pos 4000) ∷ []

aggregate_limit-least_example :
    ((n : ℕ) → aggregate_limit limits ≡ some n → AllAtLeast n limits × AnyIs n limits)
    × ((j : ℕ) → AllAtLeast 1 limits → AnyIs j limits → (n : ℕ) × (aggregate_limit limits ≡ some n))
aggregate_limit-least_example = aggregate_limit-least limits

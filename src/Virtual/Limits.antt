-- ===== src/Virtual/Limits.antt =====
-- The advertised limit is the least of the targets' limits.
use tiller_router.Prelude.{
  ℕ, ◌≤◌, ◌≡◌, refl, true, false, Option, none, some, List, [], ◌∷◌, ltb, arith, Bool-cases,
  Option-cases, inl, inr, ◌⊎◌,
}
use tiller_router.Prelude.Int.{ℤ}
use tiller_router.Virtual.{known_limit, lower, limit_from, aggregate_limit}

-- Every limit of the list is known and at least n.
abbrev pub AllAtLeast : ℕ → List (Option ℤ) → Type 0
AllAtLeast n [] = Unit
AllAtLeast n (v ∷ limits) = ((m : ℕ) × (known_limit v ≡ some m) × (n ≤ m)) × AllAtLeast n limits

-- The limit of one of the targets is n.
abbrev pub AnyIs : ℕ → List (Option ℤ) → Type 0
AnyIs n [] = ⊥
AnyIs n (v ∷ limits) = (known_limit v ≡ some n) ⊎ AnyIs n limits

unknown-limit_from :
    (least : Option ℕ) (limits : List (Option ℤ)) → limit_from false least limits ≡ none
unfolding limit_from
unknown-limit_from least [] = refl
unknown-limit_from least (v ∷ limits) = elim (Option-cases (known_limit v)) [
  | inl nil ↦ rw nil (unknown-limit_from least limits)
  | inr (m, known) ↦ rw known (unknown-limit_from least limits)
]

lower-least :
    (least : Option ℕ) (m : ℕ)
    → (k : ℕ) × (lower least m ≡ some k)
      × ((k ≡ m) ⊎ (least ≡ some k))
      × (k ≤ m)
      × ((j : ℕ) → least ≡ some j → k ≤ j)
lower-least none m = (m, refl, inl refl, omega arith, λ j e. absurd (cc))
lower-least (some k) m = elim (Bool-cases (ltb m k)) [
  | inl less ↦ (m, rw less refl, inl refl, omega arith, λ j e. ground (arith, e, less))
  | inr more ↦ (k, rw more refl, inr refl, ground (arith, more), λ j e. ground (arith, e))
]

limit_from-least :
    (least : Option ℕ) (limits : List (Option ℤ)) (n : ℕ)
    → limit_from true least limits ≡ some n
    → AllAtLeast n limits × ((least ≡ some n) ⊎ AnyIs n limits) × ((m : ℕ) → least ≡ some m → n ≤ m)
unfolding limit_from
limit_from-least least [] n h = (tt, inl h, λ m e. ground (arith, e, h))
limit_from-least least (v ∷ limits) n h = elim (Option-cases (known_limit v)) [
  | inl nil ↦ absurd (ground (arith, h, nil, unknown-limit_from least limits))
  | inr (m, known) ↦
      let (k, now, from, below, least_below) = lower-least least m in
      let (all, any, bound) =
        limit_from-least (lower least m) limits n (ground (arith, h, known)) in
      let lowest = bound k now in
      (
        ((m, known, omega (arith, lowest, below)), all),
        elim any [
          | inr later ↦ inr (inr later)
          | inl here ↦
              let same : k ≡ n = ground (arith, here, now) in
              elim from [
                | inl it ↦ inr (inl (ground (arith, known, it, same)))
                | inr old ↦ inl (ground (arith, old, same))
              ]
        ],
        λ j e. omega (arith, lowest, least_below j e),
      )
]

limit_from-known :
    (least : Option ℕ) (limits : List (Option ℤ)) (n : ℕ)
    → AllAtLeast n limits
    → ((k : ℕ) × (least ≡ some k)) ⊎ ((j : ℕ) × AnyIs j limits)
    → (out : ℕ) × (limit_from true least limits ≡ some out)
unfolding limit_from
limit_from-known least [] n all (inl (k, h)) = (k, h)
limit_from-known least [] n all (inr (j, none_left)) = absurd none_left
limit_from-known least (v ∷ limits) n all some_limit =
    let (m, known, above) = all.0 in
    let (k, now, from, below, least_below) = lower-least least m in
    let (out, h) = limit_from-known (lower least m) limits n all.1 (inl (k, now)) in
    (out, rw known h)

-- A virtual model advertises a limit exactly if it has a target and every target's limit is known (there,
-- and above zero); then the limit is that of one of the targets, and no target's is lower.
pub aggregate_limit-least :
    (limits : List (Option ℤ))
    → ((n : ℕ) → aggregate_limit limits ≡ some n → AllAtLeast n limits × AnyIs n limits)
      × ((j : ℕ)
          → AllAtLeast 1 limits
          → AnyIs j limits
          → (n : ℕ) × (aggregate_limit limits ≡ some n))
unfolding aggregate_limit
aggregate_limit-least limits = (
  λ n h.
      let (all, any, bound) = limit_from-least none limits n h in
      (all, elim any [ inl absent ↦ absurd (cc) | inr found ↦ found ]),
  λ j all found. limit_from-known none limits 1 all (inr (j, found)),
)

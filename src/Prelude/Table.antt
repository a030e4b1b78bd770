-- ===== src/Prelude/Table.antt =====
-- Go maps with string keys, as association lists. A list stands for the order in which Go's `range`
-- visits the entries; the theorems hold for every list.
use Prim.Native.String.{String}
use mathlib.Core.Path.{◌≡◌, refl, ◌∙◌}
use mathlib.Core.Bool.{Bool}
use mathlib.Core.Option.{Option, none, some}
use mathlib.Core.List.{List, [], ◌∷◌}
use mathlib.Core.Logic.{inl, inr}
use Prim.Native.Nat.{ℕ, ◌+◌, ◌≤◌}
use native.Mathlib.Omega.{arith}
use text.Mathlib.Text.{◌==◌}
use text.Mathlib.TextEquality.{eq_iff}
use tiller_router.Prelude.Tests.{if◌then◌else◌, Bool-cases}
use tiller_router.Prelude.Lists.{length, sift}

abbrev pub Table {ℓ} : Type ℓ → Type ℓ
Table V = List (String × V)

module _ {ℓ} {V : Type ℓ} where
  -- m[k]
  unfoldable pub get : Table V → String → Option V
  get [] k = none
  get ((j, v) ∷ m) k = if j == k then some v else get m k

  -- m[k] = v
  unfoldable pub put : Table V → String → V → Table V
  put [] k v = (k, v) ∷ []
  put ((j, w) ∷ m) k v = if j == k then (j, v) ∷ m else (j, w) ∷ put m k v

  -- delete(m, k)
  unfoldable pub delete : Table V → String → Table V
  delete [] k = []
  delete ((j, v) ∷ m) k = let rest = delete m k in if j == k then rest else (j, v) ∷ rest

  -- A loop that deletes the entries which fail the test.
  unfoldable pub keep : (String → V → Bool) → Table V → Table V
  keep p [] = []
  keep p ((j, v) ∷ m) = let rest = keep p m in if p j v then (j, v) ∷ rest else rest

  -- No key stands twice, as in every Go map.
  abbrev pub Distinct : Table V → Type ℓ
  Distinct [] = Unit
  Distinct ((j, v) ∷ m) = (get m j ≡ none) × Distinct m

  pub get-put :
      (m : Table V) (k j : String) (v : V)
      → get (put m k v) j ≡ (if k == j then some v else get m j)
  unfolding get put
  get-put [] k j v = ground arith
  get-put ((i, w) ∷ m) k j v = ground (arith, get-put m k j v, eq_iff i k, eq_iff i j, eq_iff k j)

  pub get-delete :
      (m : Table V) (k j : String) → get (delete m k) j ≡ (if k == j then none else get m j)
  unfolding get delete
  get-delete [] k j = ground arith
  get-delete ((i, w) ∷ m) k j = ground (arith, get-delete m k j, eq_iff i k, eq_iff i j, eq_iff k j)

  pub get-keep :
      (p : String → V → Bool) (m : Table V) (k : String)
      → Distinct m
      → get (keep p m) k ≡ sift (p k) (get m k)
  unfolding get keep
  get-keep p [] k d = refl
  get-keep p ((i, w) ∷ m) k d = ground (arith, get-keep p m k d.1, eq_iff i k, d.0)

  pub Distinct-put : (m : Table V) (k : String) (v : V) → Distinct m → Distinct (put m k v)
  unfolding put get
  Distinct-put [] k v d = (refl, d)
  Distinct-put ((i, w) ∷ m) k v d = elim (Bool-cases (i == k)) [
    | inl e ↦ rw e d
    | inr n ↦
        rw n (get-put m k i v ∙ ground (arith, eq_iff i k, eq_iff k i, d.0), Distinct-put m k v d.1)
  ]

  pub Distinct-delete : (m : Table V) (k : String) → Distinct m → Distinct (delete m k)
  unfolding delete get
  Distinct-delete [] k d = d
  Distinct-delete ((i, w) ∷ m) k d = elim (Bool-cases (i == k)) [
    | inl e ↦ rw e (Distinct-delete m k d.1)
    | inr n ↦
        rw n
          (get-delete m k i ∙ ground (arith, eq_iff i k, eq_iff k i, d.0), Distinct-delete m k d.1)
  ]

  pub Distinct-keep : (p : String → V → Bool) (m : Table V) → Distinct m → Distinct (keep p m)
  unfolding keep get
  Distinct-keep p [] d = d
  Distinct-keep p ((i, w) ∷ m) d = elim (Bool-cases (p i w)) [
    | inl e ↦ rw e (get-keep p m i d.1 ∙ ground (arith, d.0), Distinct-keep p m d.1)
    | inr n ↦ rw n (Distinct-keep p m d.1)
  ]

  pub length-keep : (p : String → V → Bool) (m : Table V) → length (keep p m) ≤ length m
  unfolding keep
  length-keep p [] = omega arith
  length-keep p ((i, w) ∷ m) = ground (arith, length-keep p m)

  pub length-delete : (m : Table V) (k : String) → length (delete m k) ≤ length m
  unfolding delete
  length-delete [] k = omega arith
  length-delete ((i, w) ∷ m) k = ground (arith, length-delete m k)

  pub length-put : (m : Table V) (k : String) (v : V) → length (put m k v) ≤ length m + 1
  unfolding put
  length-put [] k v = omega arith
  length-put ((i, w) ∷ m) k v = ground (arith, length-put m k v)

  pub length-put_old :
      (m : Table V) (k : String) (v w : V) → get m k ≡ some w → length (put m k v) ≡ length m
  unfolding put get
  length-put_old [] k v w h = cc
  length-put_old ((i, u) ∷ m) k v w h = ground (arith, length-put_old m k v w)

  pub length-delete_old :
      (m : Table V) (k : String) (w : V) → get m k ≡ some w → length (delete m k) + 1 ≤ length m
  unfolding delete get
  length-delete_old [] k w h = cc
  length-delete_old ((i, u) ∷ m) k w h = ground (arith, length-delete_old m k w, length-delete m k)

module _ {ℓ} {V : Type ℓ} (w : String → V → ℕ) where
  -- The sum of a weight over the entries.
  unfoldable pub total : Table V → ℕ
  total [] = 0
  total ((k, v) ∷ m) = w k v + total m

  abbrev pub weight_at : String → Option V → ℕ
  weight_at k none = 0
  weight_at k (some v) = w k v

  pub total-put :
      (m : Table V) (k : String) (v : V)
      → total (put m k v) + weight_at k (get m k) ≡ total m + w k v
  unfolding total put get
  total-put [] k v = omega arith
  total-put ((j, u) ∷ m) k v = ground (arith, total-put m k v, eq_iff j k)

  pub total-delete :
      (m : Table V) (k : String) → Distinct m → total (delete m k) + weight_at k (get m k) ≡ total m
  unfolding total delete get
  total-delete [] k d = omega arith
  total-delete ((j, u) ∷ m) k d = elim (Bool-cases (j == k)) [
    | inl same ↦ ground (arith, total-delete m k d.1, d.0, eq_iff j k)
    | inr other ↦ ground (arith, total-delete m k d.1)
  ]

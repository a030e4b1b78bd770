-- ===== src/Limiter/Tables.antt =====
-- What purging and evicting do to a table of the limiter.
use tiller_router.Prelude.{
  ℕ, ◌+◌, ◌≤◌, ◌<◌, String, ◌≡◌, refl, true, false, not, none, some, [], ◌∷◌, ◌==◌, arith,
  Bool-cases, inl, inr, length,
}
use tiller_router.Prelude.Table.{Table, get, Distinct, Distinct-keep, get-keep, length-keep}
use tiller_router.Limiter.{LoginFailure, is_stale, purge_table, evict_counting}

pub length-purge_table :
    (window now : ℕ) (m : Table LoginFailure) → length (purge_table window now m) ≤ length m
unfolding purge_table
length-purge_table window now m = length-keep (λ _ f. not (is_stale window now f)) m

pub Distinct-purge_table :
    (window now : ℕ) (m : Table LoginFailure) → Distinct m → Distinct (purge_table window now m)
unfolding purge_table
Distinct-purge_table window now m = Distinct-keep (λ _ f. not (is_stale window now f)) m

-- Purging leaves a lockout that is not over.
pub get-purge_table_locked :
    (window now : ℕ) (m : Table LoginFailure) (k : String) (f : LoginFailure)
    → Distinct m
    → get m k ≡ some f
    → now < f.until
    → get (purge_table window now m) k ≡ some f
unfolding purge_table is_stale
get-purge_table_locked window now m k f d g h =
    ground (arith, get-keep (λ _ x. not (is_stale window now x)) m k d)

pub get-purge_table-none :
    (window now : ℕ) (m : Table LoginFailure) (k : String)
    → Distinct m
    → get m k ≡ none
    → get (purge_table window now m) k ≡ none
unfolding purge_table
get-purge_table-none window now m k d g =
    ground (arith, get-keep (λ _ x. not (is_stale window now x)) m k d)

-- One entry less, or the table as it was.
pub length-evict_counting :
    (m : Table LoginFailure)
    → ((evict_counting m).1 ≡ true → length (evict_counting m).0 + 1 ≡ length m)
      × ((evict_counting m).1 ≡ false → (evict_counting m).0 ≡ m)
unfolding evict_counting
length-evict_counting [] = (λ h. absurd (cc), λ h. refl)
length-evict_counting ((k, f) ∷ m) =
    let (yes_len, no_same) = length-evict_counting m in
    elim (Bool-cases (f.until == 0)) [
      | inl counting ↦ (λ h. ground arith, λ h. ground arith)
      | inr locked ↦ (λ h. ground (arith, yes_len), λ h. ground (arith, no_same))
    ]

-- A lockout is never evicted.
pub get-evict_counting_locked :
    (m : Table LoginFailure) (k : String) (f : LoginFailure)
    → get m k ≡ some f
    → 0 < f.until
    → get (evict_counting m).0 k ≡ some f
unfolding evict_counting get
get-evict_counting_locked [] k f g h = absurd (cc)
get-evict_counting_locked ((j, x) ∷ m) k f g h = ground (arith, get-evict_counting_locked m k f)

pub get-evict_counting-none :
    (m : Table LoginFailure) (k : String) → get m k ≡ none → get (evict_counting m).0 k ≡ none
unfolding evict_counting get
get-evict_counting-none [] k g = refl
get-evict_counting-none ((j, x) ∷ m) k g = ground (arith, get-evict_counting-none m k)

pub Distinct-evict_counting : (m : Table LoginFailure) → Distinct m → Distinct (evict_counting m).0
unfolding evict_counting get
Distinct-evict_counting [] d = d
Distinct-evict_counting ((j, x) ∷ m) d = elim (Bool-cases (x.until == 0)) [
  | inl counting ↦ rw counting d.1
  | inr locked ↦ rw locked (get-evict_counting-none m j d.0, Distinct-evict_counting m d.1)
]

-- ===== src/Limiter/Budget.antt =====
-- The fixed-window budgets: `allowAttempt`, and the shared overflow of a saturated table.
use mathlib.Core.Path.{subst}
use tiller_router.Prelude.{
  ℕ, zero, suc, ◌+◌, ◌-◌, ◌≤◌, ◌<◌, String, eq_iff, ◌≡◌, ◌⊎◌, refl, ap, ap₂, Bool, true, false,
  none, some, List, [], ◌∷◌, ltb, leb, ◌==◌, arith, Bool-cases, inl, inr, length,
}
use tiller_router.Prelude.Table.{get, get-put}
use tiller_router.Limiter.{
  LoginFailure, LoginLimiter, max_limiter_entries, first_attempt, new_attempt, next_attempt,
  allow_attempt,
}

-- The answers to one request at each of the times.
unfoldable pub attempt_all : LoginLimiter → String → List ℕ → List Bool
attempt_all l key [] = []
attempt_all l key (now ∷ times) =
    let (l', allowed) = allow_attempt l key now in allowed ∷ attempt_all l' key times

-- The first `n` answers are yes, the others no.
unfoldable pub first_allowed : ℕ → List ℕ → List Bool
first_allowed n [] = []
first_allowed zero (now ∷ times) = false ∷ first_allowed zero times
first_allowed (suc n) (now ∷ times) = true ∷ first_allowed n times

-- The times lie in the window that opened at `first`, in order, and a lockout that starts there lasts
-- past all of them.
abbrev pub AllIn : ℕ → ℕ → ℕ → List ℕ → Type 0
AllIn first window lockout [] = Unit
AllIn first window lockout (now ∷ times) =
    ((first ≤ now) × (now ≤ first + window) × (now < first + lockout))
    × AllIn first window lockout times

-- The entry of a budget: `n` requests charged, and locked out only when they are spent.
record Charged (key : String) (first n : ℕ) (l l' : LoginLimiter) : Type 0 where
  until : ℕ
  held : get l'.attempts key ≡ some (record { count = n; first = first; until = until })
  spent : (until ≡ 0) ⊎ ((n ≡ l.max) × (first + l.lockout ≤ until))
  max : l'.max ≡ l.max
  window : l'.window ≡ l.window
  lockout : l'.lockout ≡ l.lockout

-- An entry that is neither locked out nor stale is charged.
allow-next :
    (l : LoginLimiter) (key : String) (now : ℕ) (f : LoginFailure)
    → get l.attempts key ≡ some f
    → f.until ≡ 0
    → now ≤ f.first + l.window
    → allow_attempt l key now ≡ next_attempt l key now f
unfolding allow_attempt
allow-next l key now f held idle within = rw held (ground arith)

-- A request within the budget is allowed and charged.
Charged-allowed :
    (key : String) (first n : ℕ) (l l' : LoginLimiter) (now : ℕ)
    → n < l.max
    → (first ≤ now) × (now ≤ first + l.window) × (now < first + l.lockout)
    → Charged key first n l l'
    → ((allow_attempt l' key now).1 ≡ true)
      × Charged key first (n + 1) l (allow_attempt l' key now).0
unfolding next_attempt
Charged-allowed key first n l l' now below within c =
    let f : LoginFailure = record { count = n; first = first; until = c.until } in
    let idle : c.until ≡ 0 = omega (arith, c.spent) in
    let room : leb l'.max n ≡ false = ground (arith, c.max) in
    rw (allow-next l' key now f c.held idle (omega (arith, c.window))) (
      rw room (
        refl,
        record {
          until = c.until;
          held =
              ground
                (arith, get-put l'.attempts key key (record f { count = n + 1 }), eq_iff key key);
          spent = inl idle;
          max = c.max;
          window = c.window;
          lockout = c.lockout;
        },
      ))

-- A request past the budget is refused.
Charged-refused :
    (key : String) (first : ℕ) (l l' : LoginLimiter) (now : ℕ)
    → (first ≤ now) × (now ≤ first + l.window) × (now < first + l.lockout)
    → Charged key first l.max l l'
    → ((allow_attempt l' key now).1 ≡ false)
      × Charged key first l.max l (allow_attempt l' key now).0
unfolding allow_attempt next_attempt
Charged-refused key first l l' now within c =
    let f : LoginFailure = record { count = l.max; first = first; until = c.until } in
    elim (Bool-cases (c.until == 0)) [
      | inl idle ↦
          let spent_now : leb l'.max l.max ≡ true = ground (arith, c.max) in
          let idle' : c.until ≡ 0 = ground arith in
          rw (allow-next l' key now f c.held idle' (omega (arith, c.window))) (
            rw spent_now (
              refl,
              record {
                until = now + l'.lockout;
                held = ground (
                  arith,
                  get-put l'.attempts key key (record f { until = now + l'.lockout }),
                  eq_iff key key,
                );
                spent = inr (refl, omega (arith, c.lockout));
                max = c.max;
                window = c.window;
                lockout = c.lockout;
              },
            ))
      | inr locked_out ↦
          let still : ltb now c.until ≡ true = ground (arith, c.spent) in
          rw c.held (rw (locked_out, still) (refl, c))
    ]

Charged-spent :
    (key : String) (first : ℕ) (l l' : LoginLimiter) (times : List ℕ)
    → AllIn first l.window l.lockout times
    → Charged key first l.max l l'
    → attempt_all l' key times ≡ first_allowed 0 times
unfolding attempt_all first_allowed
Charged-spent key first l l' [] within c = refl
Charged-spent key first l l' (now ∷ times) within c =
    let (told, c') = Charged-refused key first l l' now within.0 c in
    ap₂ (λ (b : Bool) (bs : List Bool). b ∷ bs) told
      (Charged-spent key first l (allow_attempt l' key now).0 times within.1 c')

Charged-all :
    (key : String) (first n k : ℕ) (l l' : LoginLimiter) (times : List ℕ)
    → n + k ≡ l.max
    → AllIn first l.window l.lockout times
    → Charged key first n l l'
    → attempt_all l' key times ≡ first_allowed k times
unfolding attempt_all first_allowed
Charged-all key first n k l l' [] left within c = refl
Charged-all key first n zero l l' (now ∷ times) left within c =
    Charged-spent key first l l' (now ∷ times) within
      (subst (λ (x : ℕ). Charged key first x l l') (omega arith) c)
Charged-all key first n (suc k) l l' (now ∷ times) left within c =
    let (told, c') = Charged-allowed key first n l l' now (omega arith) within.0 c in
    ap₂ (λ (b : Bool) (bs : List Bool). b ∷ bs) told
      (Charged-all key first (n + 1) k l (allow_attempt l' key now).0 times (omega arith) within.1
        c')

new_attempt-first :
    (l : LoginLimiter) (key : String) (now : ℕ)
    → get l.attempts key ≡ none
    → length l.attempts < max_limiter_entries
    → allow_attempt l key now ≡ (first_attempt l key now, true)
unfolding allow_attempt new_attempt
new_attempt-first l key now absent room =
    let has_room : leb max_limiter_entries (length l.attempts) ≡ false = ground arith in
    rw (absent, has_room)

first_of_budget :
    (l : LoginLimiter) (key : String) (first k : ℕ) (times : List ℕ)
    → get l.attempts key ≡ none
    → length l.attempts < max_limiter_entries
    → suc k ≡ l.max
    → AllIn first l.window l.lockout times
    → attempt_all l key (first ∷ times) ≡ first_allowed (suc k) (first ∷ times)
unfolding attempt_all first_allowed
first_of_budget l key first k times absent room left within =
    let f : LoginFailure = record { count = 1; first = first; until = 0 } in
    rw (new_attempt-first l key first absent room) (
      ap (λ (bs : List Bool). true ∷ bs)
        (Charged-all key first 1 k l (first_attempt l key first) times (omega arith) within
          (record {
            until = 0;
            held = ground (arith, get-put l.attempts key key f, eq_iff key key);
            spent = inl refl;
            max = refl;
            window = refl;
            lockout = refl;
          })))

-- A key with no charge, in a table with room, under a positive budget `max`: of a first request and
-- any further ones within the window, as long as a lockout would last, exactly the first `max` are
-- allowed and the others refused.
pub budget_exact :
    (l : LoginLimiter) (key : String) (first : ℕ) (times : List ℕ)
    → get l.attempts key ≡ none
    → length l.attempts < max_limiter_entries
    → 0 < l.max
    → AllIn first l.window l.lockout times
    → attempt_all l key (first ∷ times) ≡ first_allowed l.max (first ∷ times)
budget_exact l key first times absent room positive within =
    subst (λ (m : ℕ). attempt_all l key (first ∷ times) ≡ first_allowed m (first ∷ times))
      (omega arith) (first_of_budget l key first (l.max - 1) times absent room (omega arith) within)

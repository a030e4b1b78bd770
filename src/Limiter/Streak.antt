-- ===== src/Limiter/Streak.antt =====
-- How failures lock a key out: the threshold within a window, and the streak that reaches it.
use tiller_router.Prelude.{
  ℕ, suc, ◌+◌, ◌≤◌, ◌<◌, String, eq_iff, ◌≡◌, refl, true, false, none, some, List, [], ◌∷◌, leb,
  arith, length,
}
use tiller_router.Prelude.Table.{get, Distinct, get-put, Distinct-put}
use tiller_router.Limiter.{
  LoginFailure, LoginLimiter, max_limiter_entries, new_failure, next_failure, set_failure,
  record_failure,
}
use tiller_router.Limiter.Lockout.{LockedUntil}

reaching_failure :
    (l : LoginLimiter) (key : String) (now : ℕ) (f : LoginFailure)
    → get l.failures key ≡ some f
    → f.until ≤ now
    → now ≤ f.first + l.window
    → l.max ≤ f.count + 1
    → record_failure l key now
      ≡ (set_failure l key (record f { count = f.count + 1; until = now + l.lockout }), true)
unfolding record_failure next_failure
reaching_failure l key now f old open_now within reached = rw old (ground arith)

set-LockedUntil :
    (l : LoginLimiter) (key : String) (f : LoginFailure)
    → Distinct l.failures
    → LockedUntil key f.until (set_failure l key f)
set-LockedUntil l key f d = record {
  distinct = Distinct-put l.failures key f d;
  entry = f;
  held = ground (arith, get-put l.failures key key f, eq_iff key key);
  expiry = refl;
}

-- In a map that holds no key twice: a failure of a key that is not locked out, within the window of
-- its streak, locks it out until its time plus the lockout exactly if it reaches the threshold; an
-- earlier one is counted.
pub threshold_failure :
    (l : LoginLimiter) (key : String) (now : ℕ) (f : LoginFailure)
    → Distinct l.failures
    → get l.failures key ≡ some f
    → f.until ≤ now
    → now ≤ f.first + l.window
    → (l.max ≤ f.count + 1
        → ((record_failure l key now).1 ≡ true)
          × LockedUntil key (now + l.lockout) (record_failure l key now).0)
      × (f.count + 1 < l.max
          → record_failure l key now
            ≡ (set_failure l key (record f { count = f.count + 1 }), false))
unfolding record_failure next_failure
threshold_failure l key now f d old open_now within = (
  λ reached.
      rw (reaching_failure l key now f old open_now within reached)
        (refl, set-LockedUntil l key (record f { count = f.count + 1; until = now + l.lockout }) d),
  λ below. rw old (ground arith),
)

-- The key fails once at each of the times.
unfoldable pub fail_all : LoginLimiter → String → List ℕ → LoginLimiter
fail_all l key [] = l
fail_all l key (now ∷ times) = fail_all (record_failure l key now).0 key times

-- The times lie within the window that opened at `first`.
abbrev pub AllWithin : ℕ → ℕ → List ℕ → Type 0
AllWithin first window [] = Unit
AllWithin first window (now ∷ times) =
    ((first ≤ now) × (now ≤ first + window)) × AllWithin first window times

-- A streak of failures that stays below the threshold.
record Streak (key : String) (first n : ℕ) (l l' : LoginLimiter) : Type 0 where
  distinct : Distinct l'.failures
  held : get l'.failures key ≡ some (record { count = n; first = first; until = 0 })
  max : l'.max ≡ l.max
  window : l'.window ≡ l.window
  lockout : l'.lockout ≡ l.lockout

Streak-next :
    (key : String) (first n : ℕ) (l l' : LoginLimiter) (now : ℕ)
    → n + 1 < l.max
    → (first ≤ now) × (now ≤ first + l.window)
    → Streak key first n l l'
    → Streak key first (n + 1) l (record_failure l' key now).0
Streak-next key first n l l' now below within s =
    let f : LoginFailure = record { count = n; first = first; until = 0 } in
    rw
      ((threshold_failure l' key now f s.distinct s.held (omega arith) (omega (arith, s.window))).1
        (omega (arith, s.max)))
      (record {
        distinct = Distinct-put l'.failures key _ s.distinct;
        held =
            ground
              (arith, get-put l'.failures key key (record f { count = n + 1 }), eq_iff key key);
        max = s.max;
        window = s.window;
        lockout = s.lockout;
      })

add_suc_left : (n k : ℕ) → n + suc k ≡ n + 1 + k
add_suc_left n k = omega arith

add_zero : (n : ℕ) → n + 0 ≡ n
add_zero n = omega arith

Streak-all :
    (key : String) (first n : ℕ) (l l' : LoginLimiter) (times : List ℕ)
    → n + length times < l.max
    → AllWithin first l.window times
    → Streak key first n l l'
    → Streak key first (n + length times) l (fail_all l' key times)
unfolding fail_all
Streak-all key first n l l' [] below within s = rw (add_zero n) s
Streak-all key first n l l' (now ∷ times) below within s = rw (add_suc_left n (length times)) (
    Streak-all key first (n + 1) l (record_failure l' key now).0 times (omega arith) within.1
      (Streak-next key first n l l' now (omega arith) within.0 s))

first-Streak :
    (l : LoginLimiter) (key : String) (first : ℕ)
    → Distinct l.failures
    → get l.failures key ≡ none
    → length l.failures < max_limiter_entries
    → Streak key first 1 l (record_failure l key first).0
unfolding record_failure new_failure
first-Streak l key first d absent room =
    let f : LoginFailure = record { count = 1; first = first; until = 0 } in
    let has_room : leb max_limiter_entries (length l.failures) ≡ false = ground arith in
    rw (absent, has_room)
      (record {
        distinct = Distinct-put l.failures key f d;
        held = ground (arith, get-put l.failures key key f, eq_iff key key);
        max = refl;
        window = refl;
        lockout = refl;
      })

-- From a key with no record, in a table that holds no key twice and has room, with a threshold of at
-- least two: after a first failure and further ones within the window, one less than the threshold
-- in all, the next failure within the window reports the lockout and the key is locked out until its
-- time plus the lockout.
pub streak_locks_out :
    (l : LoginLimiter) (key : String) (first : ℕ) (times : List ℕ) (last : ℕ)
    → Distinct l.failures
    → get l.failures key ≡ none
    → length l.failures < max_limiter_entries
    → l.max ≡ length times + 2
    → AllWithin first l.window times
    → (first ≤ last) × (last ≤ first + l.window)
    → ((record_failure (fail_all l key (first ∷ times)) key last).1 ≡ true)
      × LockedUntil key
          (last + l.lockout)
          (record_failure (fail_all l key (first ∷ times)) key last).0
unfolding fail_all
streak_locks_out l key first times last d absent room threshold within within_last =
    let l' = (record_failure l key first).0 in
    let s : Streak key first 1 l l' = first-Streak l key first d absent room in
    let s' = Streak-all key first 1 l l' times (omega arith) within s in
    let f : LoginFailure = record { count = 1 + length times; first = first; until = 0 } in
    let (told, held) =
      (threshold_failure (fail_all l' key times) key last f s'.distinct s'.held (omega arith)
          (omega (arith, s'.window))).0
        (omega (arith, s'.max)) in
    (told, rw s'.lockout at held)

-- ===== src/Limiter.antt =====
-- internal/server/login_limiter.go: consecutive failures with a lockout, and fixed-window budgets.
-- A `time.Time` is a number of nanoseconds, 0 the zero time. `now.Sub(first) > window` is read on ℕ: a
-- difference below zero is not above a window, as in the source. Each method takes the clock that the
-- source reads inside it, and a key that `limiterKey` has already collapsed (Limiter.Address).
mod Tables
mod History
mod Bounds
mod Lockout
mod Streak
mod Budget
mod Overflow
pub mod Address
mod Examples
mod AddressExamples
use tiller_router.Prelude.{
  ℕ, ◌+◌, ◌-◌, String, Bool, true, false, not, ◌&&◌, ◌||◌, Option, none, some, [], ◌∷◌, ltb, leb,
  ◌==◌, if◌then◌else◌, length,
}
use tiller_router.Prelude.Table.{Table, get, put, delete, keep}

pub record LoginFailure : Type 0 where
  pub count : ℕ
  pub first : ℕ
  pub until : ℕ

pub record LoginLimiter : Type 0 where
  pub failures : Table LoginFailure
  pub attempts : Table LoginFailure
  pub max : ℕ
  pub window : ℕ
  pub lockout : ℕ
  pub overflow : LoginFailure

abbrev pub no_failure : LoginFailure
no_failure = record { count = 0; first = 0; until = 0 }

unfoldable pub new_login_limiter : ℕ → ℕ → ℕ → LoginLimiter
new_login_limiter max window lockout = record {
  failures = [];
  attempts = [];
  max = max;
  window = window;
  lockout = lockout;
  overflow = no_failure;
}

abbrev pub max_limiter_entries : ℕ
max_limiter_entries = 4096

-- A lockout that is over, or a counting window that is.
unfoldable pub is_stale : ℕ → ℕ → LoginFailure → Bool
is_stale window now f = if f.until == 0 then ltb window (now - f.first) else not (ltb now f.until)

-- The loops of `purge` and `purgeAttempts`.
unfoldable pub purge_table : ℕ → ℕ → Table LoginFailure → Table LoginFailure
purge_table window now m = keep (λ _ f. not (is_stale window now f)) m

unfoldable pub purge : LoginLimiter → ℕ → LoginLimiter
unfolding purge_table
purge l now = record l { failures = purge_table l.window now l.failures }

unfoldable pub purge_attempts : LoginLimiter → ℕ → LoginLimiter
unfolding purge_table
purge_attempts l now = record l { attempts = purge_table l.window now l.attempts }

-- The loop that deletes the first entry which is not locked out, and stops: the new map, and `evicted`.
unfoldable pub evict_counting : Table LoginFailure → Table LoginFailure × Bool
evict_counting [] = ([], false)
evict_counting ((k, f) ∷ m) =
    let (rest, evicted) = evict_counting m in
    if f.until == 0 then (m, true) else ((k, f) ∷ rest, evicted)

-- The shared budget after its own lockout has been looked at, and charged once.
unfoldable pub charge_overflow : ℕ → ℕ → ℕ → LoginFailure → ℕ → LoginFailure × Bool
charge_overflow max window lockout o now =
    let o' = if o.until == 0 then o else no_failure in
    let o'' =
      if o'.count == 0 || ltb window (now - o'.first)
      then record o' { count = 0; first = now }
      else o' in
    let charged = record o'' { count = o''.count + 1 } in
    if ltb max charged.count
    then (record charged { until = now + lockout }, false)
    else (charged, true)

unfoldable pub overflow_allow : LoginLimiter → ℕ → LoginLimiter × Bool
overflow_allow l now =
    let (o, allowed) = charge_overflow l.max l.window l.lockout l.overflow now in
    if not (l.overflow.until == 0) && ltb now l.overflow.until
    then (l, false)
    else (record l { overflow = o }, allowed)

-- `locked` at what the map holds under the key.
unfoldable pub locked_at : LoginLimiter → String → ℕ → Option LoginFailure → LoginLimiter × Bool
locked_at l key now none =
    (l, leb max_limiter_entries (length l.failures) && ltb now l.overflow.until)
locked_at l key now (some f) =
    if f.until == 0
    then (l, false)
    else if ltb now f.until
    then (l, true)
    else (record l { failures = delete l.failures key }, false)

unfoldable pub locked : LoginLimiter → String → ℕ → LoginLimiter × Bool
unfolding locked_at
locked l key now = locked_at l key now (get l.failures key)

-- l.failures[key] = &loginFailure{count: 1, first: now}
abbrev pub first_failure : LoginLimiter → String → ℕ → LoginLimiter
first_failure l key now = record l {
  failures = put l.failures key (record { count = 1; first = now; until = 0 });
}

-- The map has been purged and is still full.
unfoldable pub failure_when_full : LoginLimiter → String → ℕ → LoginLimiter × Bool
failure_when_full l key now =
    let (rest, evicted) = evict_counting l.failures in
    let (l', allowed) = overflow_allow l now in
    if evicted
    then (first_failure (record l { failures = rest }) key now, false)
    else (l', not allowed)

unfoldable pub new_failure : LoginLimiter → String → ℕ → LoginLimiter × Bool
new_failure l key now =
    let purged = purge l now in
    if leb max_limiter_entries (length l.failures)
    then (if leb max_limiter_entries (length purged.failures)
        then failure_when_full purged key now
        else (first_failure purged key now, false))
    else (first_failure l key now, false)

-- The write through the pointer that the map holds.
abbrev pub set_failure : LoginLimiter → String → LoginFailure → LoginLimiter
set_failure l key f = record l { failures = put l.failures key f }

unfoldable pub next_failure : LoginLimiter → String → ℕ → LoginFailure → LoginLimiter × Bool
next_failure l key now f =
    if ltb now f.until
    then (l, true)
    else if ltb l.window (now - f.first)
    then (set_failure l key (record f { count = 1; first = now }), false)
    else if leb l.max (f.count + 1)
    then (set_failure l key (record f { count = f.count + 1; until = now + l.lockout }), true)
    else (set_failure l key (record f { count = f.count + 1 }), false)

unfoldable pub record_failure_at :
    LoginLimiter → String → ℕ → Option LoginFailure → LoginLimiter × Bool
record_failure_at l key now none = new_failure l key now
record_failure_at l key now (some f) = next_failure l key now f

unfoldable pub record_failure : LoginLimiter → String → ℕ → LoginLimiter × Bool
unfolding record_failure_at
record_failure l key now = record_failure_at l key now (get l.failures key)

abbrev pub first_attempt : LoginLimiter → String → ℕ → LoginLimiter
first_attempt l key now = record l {
  attempts = put l.attempts key (record { count = 1; first = now; until = 0 });
}

-- The map has been purged and is still full.
unfoldable pub attempt_when_full : LoginLimiter → String → ℕ → LoginLimiter × Bool
attempt_when_full l key now =
    let l' = record l { attempts = (evict_counting l.attempts).0 } in
    if leb max_limiter_entries (length l'.attempts)
    then overflow_allow l' now
    else (first_attempt l' key now, true)

unfoldable pub new_attempt : LoginLimiter → String → ℕ → LoginLimiter × Bool
new_attempt l key now =
    let purged = purge_attempts l now in
    if leb max_limiter_entries (length l.attempts)
    then (if leb max_limiter_entries (length purged.attempts)
        then attempt_when_full purged key now
        else (first_attempt purged key now, true))
    else (first_attempt l key now, true)

abbrev pub set_attempt : LoginLimiter → String → LoginFailure → LoginLimiter
set_attempt l key f = record l { attempts = put l.attempts key f }

unfoldable pub next_attempt : LoginLimiter → String → ℕ → LoginFailure → LoginLimiter × Bool
next_attempt l key now f =
    if leb l.max f.count
    then (set_attempt l key (record f { until = now + l.lockout }), false)
    else (set_attempt l key (record f { count = f.count + 1 }), true)

-- The entry is gone: its lockout or its window is over.
abbrev pub forget_attempt : LoginLimiter → String → LoginLimiter
forget_attempt l key = record l { attempts = delete l.attempts key }

unfoldable pub allow_attempt_at :
    LoginLimiter → String → ℕ → Option LoginFailure → LoginLimiter × Bool
unfolding is_stale
allow_attempt_at l key now none = new_attempt l key now
allow_attempt_at l key now (some f) =
    if not (f.until == 0) && ltb now f.until
    then (l, false)
    else if is_stale l.window now f
    then new_attempt (forget_attempt l key) key now
    else next_attempt l key now f

unfoldable pub allow_attempt : LoginLimiter → String → ℕ → LoginLimiter × Bool
unfolding allow_attempt_at
allow_attempt l key now = allow_attempt_at l key now (get l.attempts key)

unfoldable pub success : LoginLimiter → String → LoginLimiter
success l key = record l { failures = delete l.failures key }

-- ===== src/Limiter/Bounds.antt =====
-- Neither map grows past `maxLimiterEntries`.
use tiller_router.Prelude.{
  ℕ, ◌+◌, ◌-◌, ◌≤◌, ◌<◌, String, ◌≡◌, not, ◌&&◌, some, List, [], ◌∷◌, ltb, leb, ◌==◌, arith,
  Bool-cases, Option-cases, inl, inr, length,
}
use tiller_router.Prelude.Table.{Table, get, length-put, length-put_old, length-delete}
use tiller_router.Limiter.{
  LoginFailure, LoginLimiter, new_login_limiter, max_limiter_entries, purge, purge_attempts,
  evict_counting, overflow_allow, locked, failure_when_full, new_failure, next_failure,
  first_failure, set_failure, first_attempt, forget_attempt, is_stale, record_failure,
  attempt_when_full, new_attempt, next_attempt, allow_attempt, success,
}
use tiller_router.Limiter.Tables.{length-purge_table, length-evict_counting}
use tiller_router.Limiter.History.{Call, checked, failed, attempted, succeeded, step, run}

pub record Bounded (l : LoginLimiter) : Type 0 where
  pub failures : length l.failures ≤ max_limiter_entries
  pub attempts : length l.attempts ≤ max_limiter_entries

overflow_allow-Bounded : (l : LoginLimiter) (now : ℕ) → Bounded l → Bounded (overflow_allow l now).0
unfolding overflow_allow
overflow_allow-Bounded l now b = ground arith

failure_when_full-Bounded :
    (l : LoginLimiter) (key : String) (now : ℕ)
    → Bounded l
    → Bounded (failure_when_full l key now).0
unfolding failure_when_full
failure_when_full-Bounded l key now b =
    let rest = (evict_counting l.failures).0 in
    let (less, _) = length-evict_counting l.failures in
    let first : LoginFailure = record { count = 1; first = now; until = 0 } in
    elim (Bool-cases (evict_counting l.failures).1) [
      | inl evicted ↦ rw evicted (record {
        failures = omega (arith, less evicted, length-put rest key first, b.failures);
        attempts = b.attempts;
      })
      | inr none_evicted ↦ rw none_evicted (overflow_allow-Bounded l now b)
    ]

first_failure-Bounded :
    (l : LoginLimiter) (key : String) (now : ℕ)
    → Bounded l
    → length l.failures < max_limiter_entries
    → Bounded (first_failure l key now)
first_failure-Bounded l key now b room = record {
  failures =
      omega (arith, length-put l.failures key (record { count = 1; first = now; until = 0 }));
  attempts = b.attempts;
}

purge-Bounded : (l : LoginLimiter) (now : ℕ) → Bounded l → Bounded (purge l now)
unfolding purge
purge-Bounded l now b = record {
  failures = omega (arith, length-purge_table l.window now l.failures, b.failures);
  attempts = b.attempts;
}

new_failure-Bounded :
    (l : LoginLimiter) (key : String) (now : ℕ) → Bounded l → Bounded (new_failure l key now).0
unfolding new_failure
new_failure-Bounded l key now b =
    let b' = purge-Bounded l now b in
    elim (Bool-cases (leb max_limiter_entries (length l.failures))) [
      | inr room ↦ rw room (first_failure-Bounded l key now b (ground arith))
      | inl full ↦
          rw full (elim (Bool-cases (leb max_limiter_entries (length (purge l now).failures))) [
            | inr room ↦ rw room (first_failure-Bounded (purge l now) key now b' (ground arith))
            | inl still_full ↦ rw still_full (failure_when_full-Bounded (purge l now) key now b')
          ])
    ]

set_failure-Bounded :
    (l : LoginLimiter) (key : String) (f g : LoginFailure)
    → get l.failures key ≡ some g
    → Bounded l
    → Bounded (set_failure l key f)
set_failure-Bounded l key f g old b = record {
  failures = omega (arith, length-put_old l.failures key f g old, b.failures);
  attempts = b.attempts;
}

next_failure-Bounded :
    (l : LoginLimiter) (key : String) (now : ℕ) (f : LoginFailure)
    → get l.failures key ≡ some f
    → Bounded l
    → Bounded (next_failure l key now f).0
unfolding next_failure
next_failure-Bounded l key now f old b = elim (Bool-cases (ltb now f.until)) [
  | inl is_locked ↦ rw is_locked b
  | inr open_now ↦ rw open_now (elim (Bool-cases (ltb l.window (now - f.first))) [
    | inl elapsed ↦ rw elapsed (set_failure-Bounded l key _ f old b)
    | inr counting ↦ rw counting (elim (Bool-cases (leb l.max (f.count + 1))) [
      | inl reached ↦ rw reached (set_failure-Bounded l key _ f old b)
      | inr below ↦ rw below (set_failure-Bounded l key _ f old b)
    ])
  ])
]

record_failure-Bounded :
    (l : LoginLimiter) (key : String) (now : ℕ) → Bounded l → Bounded (record_failure l key now).0
unfolding record_failure
record_failure-Bounded l key now b = elim (Option-cases (get l.failures key)) [
  | inl absent ↦ rw absent (new_failure-Bounded l key now b)
  | inr (f, old) ↦ rw old (next_failure-Bounded l key now f old b)
]

locked-Bounded :
    (l : LoginLimiter) (key : String) (now : ℕ) → Bounded l → Bounded (locked l key now).0
unfolding locked
locked-Bounded l key now b = elim (Option-cases (get l.failures key)) [
  | inl absent ↦ rw absent b
  | inr (f, old) ↦ rw old (ground (arith, length-delete l.failures key))
]

purge_attempts-Bounded : (l : LoginLimiter) (now : ℕ) → Bounded l → Bounded (purge_attempts l now)
unfolding purge_attempts
purge_attempts-Bounded l now b = record {
  failures = b.failures;
  attempts = omega (arith, length-purge_table l.window now l.attempts, b.attempts);
}

first_attempt-Bounded :
    (l : LoginLimiter) (key : String) (now : ℕ)
    → Bounded l
    → length l.attempts < max_limiter_entries
    → Bounded (first_attempt l key now)
first_attempt-Bounded l key now b room = record {
  failures = b.failures;
  attempts =
      omega (arith, length-put l.attempts key (record { count = 1; first = now; until = 0 }));
}

length-evict_counting_le : (m : Table LoginFailure) → length (evict_counting m).0 ≤ length m
length-evict_counting_le m =
    let (less, same) = length-evict_counting m in
    elim (Bool-cases (evict_counting m).1) [
      | inl evicted ↦ omega (arith, less evicted)
      | inr kept ↦ rw (same kept) (omega arith)
    ]

attempt_when_full-Bounded :
    (l : LoginLimiter) (key : String) (now : ℕ)
    → Bounded l
    → Bounded (attempt_when_full l key now).0
unfolding attempt_when_full
attempt_when_full-Bounded l key now b =
    let rest = (evict_counting l.attempts).0 in
    let b' : Bounded (record l { attempts = rest }) = record {
      failures = b.failures;
      attempts = omega (arith, length-evict_counting_le l.attempts, b.attempts);
    } in
    elim (Bool-cases (leb max_limiter_entries (length rest))) [
      | inl full ↦ rw full (overflow_allow-Bounded (record l { attempts = rest }) now b')
      | inr room ↦
          rw room (first_attempt-Bounded (record l { attempts = rest }) key now b' (ground arith))
    ]

new_attempt-Bounded :
    (l : LoginLimiter) (key : String) (now : ℕ) → Bounded l → Bounded (new_attempt l key now).0
unfolding new_attempt
new_attempt-Bounded l key now b =
    let b' = purge_attempts-Bounded l now b in
    elim (Bool-cases (leb max_limiter_entries (length l.attempts))) [
      | inr room ↦ rw room (first_attempt-Bounded l key now b (ground arith))
      | inl full ↦
          rw full
            (elim (Bool-cases (leb max_limiter_entries (length (purge_attempts l now).attempts))) [
              | inr room ↦
                  rw room (first_attempt-Bounded (purge_attempts l now) key now b' (ground arith))
              | inl still_full ↦
                  rw still_full (attempt_when_full-Bounded (purge_attempts l now) key now b')
            ])
    ]

forget_attempt-Bounded :
    (l : LoginLimiter) (key : String) → Bounded l → Bounded (forget_attempt l key)
forget_attempt-Bounded l key b = record {
  failures = b.failures;
  attempts = omega (arith, length-delete l.attempts key, b.attempts);
}

allow_attempt-Bounded :
    (l : LoginLimiter) (key : String) (now : ℕ) → Bounded l → Bounded (allow_attempt l key now).0
unfolding allow_attempt next_attempt
allow_attempt-Bounded l key now b = elim (Option-cases (get l.attempts key)) [
  | inl absent ↦ rw absent (new_attempt-Bounded l key now b)
  | inr (f, old) ↦ rw old (elim (Bool-cases (not (f.until == 0) && ltb now f.until)) [
    | inl is_locked ↦ rw is_locked b
    | inr open_now ↦ rw open_now (elim (Bool-cases (is_stale l.window now f)) [
      | inl stale ↦
          rw stale
            (new_attempt-Bounded (forget_attempt l key) key now (forget_attempt-Bounded l key b))
      | inr fresh ↦ rw fresh (
          ground (
            arith,
            length-put_old l.attempts key (record f { until = now + l.lockout }) f old,
            length-put_old l.attempts key (record f { count = f.count + 1 }) f old,
          ))
    ])
  ])
]

success-Bounded : (l : LoginLimiter) (key : String) → Bounded l → Bounded (success l key)
unfolding success
success-Bounded l key b = record {
  failures = omega (arith, length-delete l.failures key, b.failures);
  attempts = b.attempts;
}

step-Bounded : (l : LoginLimiter) (call : Call) → Bounded l → Bounded (step l call)
unfolding step
step-Bounded l (checked key now) b = locked-Bounded l key now b
step-Bounded l (failed key now) b = record_failure-Bounded l key now b
step-Bounded l (attempted key now) b = allow_attempt-Bounded l key now b
step-Bounded l (succeeded key) b = success-Bounded l key b

run_from-Bounded : (l : LoginLimiter) (calls : List Call) → Bounded l → Bounded (run l calls)
unfolding run
run_from-Bounded l [] b = b
run_from-Bounded l (call ∷ calls) b = run_from-Bounded (step l call) calls (step-Bounded l call b)

-- Whatever the calls, with whatever keys and times, neither map of a limiter ever holds more than
-- 4096 entries.
pub run-Bounded :
    (max window lockout : ℕ) (calls : List Call)
    → (length (run (new_login_limiter max window lockout) calls).failures ≤ 4096)
      × (length (run (new_login_limiter max window lockout) calls).attempts ≤ 4096)
unfolding new_login_limiter
run-Bounded max window lockout calls =
    let b =
      run_from-Bounded (new_login_limiter max window lockout) calls
        (record { failures = omega arith; attempts = omega arith }) in
    (b.failures, b.attempts)

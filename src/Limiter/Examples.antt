-- ===== src/Limiter/Examples.antt =====
-- The theorems of the limiter at concrete limiters, calls and addresses.
use tiller_router.Prelude.{◌+◌, ◌≤◌, ◌≡◌, refl, true, List, [], ◌∷◌, length, arith}
use tiller_router.Prelude.Table.{get, put}
use tiller_router.Limiter.{
  LoginFailure, LoginLimiter, new_login_limiter, no_failure, locked, record_failure, set_failure,
}
use tiller_router.Limiter.History.{Call, checked, failed, attempted, succeeded, run}
use tiller_router.Limiter.Bounds.{run-Bounded}
use tiller_router.Limiter.Lockout.{LockedUntil, lockout_holds}
use tiller_router.Limiter.Streak.{fail_all, streak_locks_out}
use tiller_router.Limiter.Budget.{attempt_all, first_allowed, budget_exact}

-- Three failures in 100 lock out for 50.
abbrev three : LoginLimiter
three = record {
  failures = [];
  attempts = [];
  max = 3;
  window = 100;
  lockout = 50;
  overflow = no_failure;
}

abbrev twice_failed : LoginFailure
twice_failed = record { count = 2; first = 10; until = 0 }

abbrev near : LoginLimiter
near = set_failure three "peer" twice_failed

abbrev out : LoginLimiter
out = set_failure three "peer" (record { count = 3; first = 10; until = 90 })

abbrev calls : List Call
calls =
    failed "peer" 20
    ∷ failed "other" 30
    ∷ attempted "peer" 31
    ∷ checked "peer" 40
    ∷ succeeded "other"
    ∷ []

out-LockedUntil : LockedUntil "peer" 90 out
unfolding put get
out-LockedUntil = record {
  distinct = (refl, tt);
  entry = record { count = 3; first = 10; until = 90 };
  held = refl;
  expiry = refl;
}

lockout_holds_example :
    ((locked (run out calls) "peer" 60).1 ≡ true)
    × (record_failure (run out calls) "peer" 60 ≡ (run out calls, true))
lockout_holds_example =
    lockout_holds "peer" 90 out calls 60 out-LockedUntil
      (omega arith, (omega arith, (tt, (omega arith, (refl, tt))))) (omega arith)

run-Bounded_example :
    (length (run (new_login_limiter 3 100 50) calls).failures ≤ 4096)
    × (length (run (new_login_limiter 3 100 50) calls).attempts ≤ 4096)
run-Bounded_example = run-Bounded 3 100 50 calls

streak_locks_out_example :
    ((record_failure (fail_all three "peer" (10 ∷ 20 ∷ [])) "peer" 60).1 ≡ true)
    × LockedUntil "peer"
        (60 + 50)
        (record_failure (fail_all three "peer" (10 ∷ 20 ∷ [])) "peer" 60).0
unfolding put get
streak_locks_out_example =
    streak_locks_out three "peer" 10 (20 ∷ []) 60 tt refl (omega arith) refl
      ((omega arith, omega arith), tt) (omega arith, omega arith)

budget_exact_example :
    attempt_all three "peer" (10 ∷ 20 ∷ 20 ∷ 30 ∷ 40 ∷ [])
    ≡ first_allowed 3 (10 ∷ 20 ∷ 20 ∷ 30 ∷ 40 ∷ [])
unfolding put get
budget_exact_example =
    budget_exact three "peer" 10 (20 ∷ 20 ∷ 30 ∷ 40 ∷ []) refl (omega arith) (omega arith) (
      (omega arith, omega arith, omega arith),
      (
        (omega arith, omega arith, omega arith),
        ((omega arith, omega arith, omega arith), ((omega arith, omega arith, omega arith), tt)),
      ),
    )

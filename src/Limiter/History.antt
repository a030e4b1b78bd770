-- ===== src/Limiter/History.antt =====
-- Any sequence of calls on the limiter, each at its own time.
use tiller_router.Prelude.{ℕ, String, List, [], ◌∷◌}
use tiller_router.Limiter.{LoginLimiter, locked, record_failure, allow_attempt, success}

pub data Call : Type 0 where
  checked : String → ℕ → Call
  failed : String → ℕ → Call
  attempted : String → ℕ → Call
  succeeded : String → Call

unfoldable pub step : LoginLimiter → Call → LoginLimiter
step l (checked key now) = (locked l key now).0
step l (failed key now) = (record_failure l key now).0
step l (attempted key now) = (allow_attempt l key now).0
step l (succeeded key) = success l key

unfoldable pub run : LoginLimiter → List Call → LoginLimiter
run l [] = l
run l (call ∷ calls) = run (step l call) calls

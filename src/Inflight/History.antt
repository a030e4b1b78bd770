-- ===== src/Inflight/History.antt =====
-- Any sequence of calls on the tracker, and all that it emits.
use tiller_router.Prelude.{String, ◌≡◌, Bool, true, List, [], ◌∷◌, ◌++◌}
use tiller_router.Prelude.Int.{ℤ}
use tiller_router.Prelude.Text.{nul_free}
use tiller_router.Inflight.{
  InflightTracker, Emitted, client_start, try_acquire, client_streaming, client_resolved,
  client_end, target_start, target_end, target_skipped,
}

-- The arguments are those of the methods: account, client, route, and the rest.
pub data Call : Type 0 where
  started : String → String → String → String → Call
  acquired : String → ℤ → String → String → String → Call
  streamed : String → String → String → Call
  resolved : String → String → String → String → Call
  ended : String → String → String → Bool → Call
  target_started : String → String → String → Call
  target_ended : String → String → String → Call
  skipped : String → String → String → String → String → Call

abbrev acquire_emits : InflightTracker × Bool × Emitted → InflightTracker × Emitted
acquire_emits (t, admitted, emitted) = (t, emitted)

unfoldable pub step : InflightTracker → Call → InflightTracker × Emitted
step t (started a i r m) = client_start t a i r m
step t (acquired a limit i r m) = acquire_emits (try_acquire t a limit i r m)
step t (streamed a i r) = client_streaming t a i r
step t (resolved a i r m) = client_resolved t a i r m
step t (ended a i r s) = client_end t a i r s
step t (target_started a r x) = target_start t a r x
step t (target_ended a r x) = target_end t a r x
step t (skipped a r i x f) = (t, target_skipped a r i x f)

unfoldable pub run : InflightTracker → List Call → InflightTracker × Emitted
run t [] = (t, [])
run t (call ∷ calls) =
    let (t', emitted) = step t call in let (t'', later) = run t' calls in (t'', emitted ++ later)

-- The account and the first id of the call's key hold no NUL.
abbrev pub Admissible : Call → Type 0
Admissible (started a i r m) = (nul_free a ≡ true) × (nul_free i ≡ true)
Admissible (acquired a limit i r m) = (nul_free a ≡ true) × (nul_free i ≡ true)
Admissible (streamed a i r) = (nul_free a ≡ true) × (nul_free i ≡ true)
Admissible (resolved a i r m) = (nul_free a ≡ true) × (nul_free i ≡ true)
Admissible (ended a i r s) = (nul_free a ≡ true) × (nul_free i ≡ true)
Admissible (target_started a r x) = (nul_free a ≡ true) × (nul_free r ≡ true)
Admissible (target_ended a r x) = (nul_free a ≡ true) × (nul_free r ≡ true)
Admissible (skipped a r i x f) = (nul_free a ≡ true) × (nul_free r ≡ true)

abbrev pub AllAdmissible : List Call → Type 0
AllAdmissible [] = Unit
AllAdmissible (call ∷ calls) = Admissible call × AllAdmissible calls

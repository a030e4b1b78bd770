-- ===== src/Inflight/Examples.antt =====
-- A run of requests of two accounts, and the theorems of the tracker at it.
use tiller_router.Prelude.{
  ◌+◌, ◌≤◌, String, eq_iff, ◌≡◌, ◌≢◌, refl, true, false, List, [], ◌∷◌, arith,
}
use tiller_router.Prelude.Int.{pos}
use tiller_router.Prelude.Text.{nul_free, has_prefix}
use tiller_router.Prelude.Table.{get, put, total, Distinct}
use tiller_router.Tenant.{tenant_prefix}
use tiller_router.Inflight.{
  InflightTracker, new_tracker, inflight_client_key, active_client_requests_locked,
  client_start_locked, try_acquire, client_start, client_end, release,
}
use tiller_router.Inflight.History.{
  Call, started, acquired, streamed, ended, target_started, target_ended, skipped, run, step,
  AllAdmissible,
}
use tiller_router.Inflight.Ledger.{
  raised, lowered, streams_raised, streams_lowered, booked, ticket, ledger,
}
use tiller_router.Inflight.Requests.{
  AllEndOne, after_call, count_request, count_account, running_after,
}
use tiller_router.Inflight.Running.{running_after-le_limit}

abbrev calls : List Call
calls =
    acquired "acc" (pos 1) "key" "route" "main"
    ∷ streamed "acc" "key" "route"
    ∷ acquired "acc" (pos 1) "key" "route" "main"
    ∷ started "other" "key" "route" "main"
    ∷ target_started "acc" "route" "m1"
    ∷ target_ended "acc" "route" "m1"
    ∷ skipped "acc" "route" "key" "m2" "cooldown"
    ∷ ended "acc" "key" "route" true
    ∷ ended "acc" "key" "route" true
    ∷ []

abbrev one : InflightTracker
one = client_start_locked new_tracker "acc" "key" "route" "main"

-- The second request of the account is refused.
second_refused : (try_acquire one "acc" (pos 1) "key2" "route" "main").1 ≡ false
unfolding try_acquire client_start_locked active_client_requests_locked total get put has_prefix
    tenant_prefix inflight_client_key
second_refused = refl

calls-AllAdmissible : AllAdmissible calls
unfolding nul_free
calls-AllAdmissible = (
  (refl, refl),
  (
    (refl, refl),
    (
      (refl, refl),
      (
        (refl, refl),
        ((refl, refl), ((refl, refl), ((refl, refl), ((refl, refl), ((refl, refl), tt))))),
      ),
    ),
  ),
)

key_named : ◌≢◌ {A = String} "key" ""
key_named = ground (arith, eq_iff "key" "")

ledger_example :
    (booked raised "acc" "key" "route" (run new_tracker calls).1
      ≡ booked lowered "acc" "key" "route" (run new_tracker calls).1
        + (ticket (run new_tracker calls).0 "acc" "key" "route").active)
    × (booked streams_raised "acc" "key" "route" (run new_tracker calls).1
        ≡ booked streams_lowered "acc" "key" "route" (run new_tracker calls).1
          + (ticket (run new_tracker calls).0 "acc" "key" "route").streaming)
unfolding nul_free
ledger_example = ledger "acc" "key" "route" calls refl refl key_named calls-AllAdmissible

-- One slot, which a second request of the account asks for before and after the first has it.
abbrev turns : List Call
turns =
    acquired "acc" (pos 1) "key" "route" "main"
    ∷ started "other" "key" "route" "main"
    ∷ acquired "acc" (pos 1) "key2" "route" "main"
    ∷ ended "acc" "key" "route" false
    ∷ acquired "acc" (pos 1) "key2" "route" "main"
    ∷ []

turns-AllEndOne : AllEndOne [] new_tracker turns
unfolding after_call count_request step try_acquire client_start client_start_locked
    active_client_requests_locked total get put has_prefix tenant_prefix inflight_client_key
    client_end release
turns-AllEndOne = (tt, (tt, (tt, (omega arith, (tt, tt)))))

running_after-le_limit_example : count_account "acc" (running_after [] new_tracker turns) ≤ 1
unfolding nul_free
running_after-le_limit_example =
    running_after-le_limit "acc" 1 turns refl
      ((refl, refl), ((refl, refl), ((refl, refl), ((refl, refl), ((refl, refl), tt)))))
      ((λ _. refl), (refl, ((λ _. refl), (tt, ((λ _. refl), tt))))) turns-AllEndOne

one-Distinct : Distinct one.client_states
unfolding client_start_locked put get
one-Distinct = (refl, tt)

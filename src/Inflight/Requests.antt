-- ===== src/Inflight/Requests.antt =====
-- Who is running, told by the calls and the answers of `tryAcquire` and not by the tracker's counters.
use tiller_router.Prelude.{
  ℕ, ◌+◌, ◌<◌, String, str_eq, eq_iff, ◌≡◌, Bool, ◌&&◌, List, [], ◌∷◌, if◌then◌else◌, arith,
  Bool-cases, inl, inr,
}
use tiller_router.Inflight.{InflightTracker, try_acquire}
use tiller_router.Inflight.History.{
  Call, started, acquired, streamed, resolved, ended, target_started, target_ended, skipped, step,
}

-- The account, the client and the route of each running request.
abbrev pub Requests : Type 0
Requests = List (String × String × String)

abbrev pub same_request : String → String → String → String → String → String → Bool
same_request a i r b j q = str_eq a b && (str_eq i j && str_eq r q)

unfoldable pub count_request : String → String → String → Requests → ℕ
count_request a i r [] = 0
count_request a i r ((b, j, q) ∷ rest) =
    (if same_request b j q a i r then 1 else 0) + count_request a i r rest

unfoldable pub count_account : String → Requests → ℕ
count_account a [] = 0
count_account a ((b, j, q) ∷ rest) = (if str_eq b a then 1 else 0) + count_account a rest

unfoldable pub drop_one : String → String → String → Requests → Requests
drop_one a i r [] = []
drop_one a i r ((b, j, q) ∷ rest) =
    let dropped = drop_one a i r rest in
    if same_request b j q a i r then rest else (b, j, q) ∷ dropped

-- A request runs from its start, or from the call that admits it, to its end.
unfoldable pub after_call : Requests → InflightTracker → Call → Requests
after_call running t (started a i r m) = (a, i, r) ∷ running
after_call running t (acquired a limit i r m) =
    if (try_acquire t a limit i r m).1 then (a, i, r) ∷ running else running
after_call running t (streamed a i r) = running
after_call running t (resolved a i r m) = running
after_call running t (ended a i r s) = drop_one a i r running
after_call running t (target_started a r x) = running
after_call running t (target_ended a r x) = running
after_call running t (skipped a r i x f) = running

unfoldable pub running_after : Requests → InflightTracker → List Call → Requests
running_after running t [] = running
running_after running t (call ∷ calls) =
    running_after (after_call running t call) (step t call).0 calls

-- An end is that of a request that is running.
abbrev pub EndsOne : Requests → Call → Type 0
EndsOne running (started a i r m) = Unit
EndsOne running (acquired a limit i r m) = Unit
EndsOne running (streamed a i r) = Unit
EndsOne running (resolved a i r m) = Unit
EndsOne running (ended a i r s) = 0 < count_request a i r running
EndsOne running (target_started a r x) = Unit
EndsOne running (target_ended a r x) = Unit
EndsOne running (skipped a r i x f) = Unit

abbrev pub AllEndOne : Requests → InflightTracker → List Call → Type 0
AllEndOne running t [] = Unit
AllEndOne running t (call ∷ calls) =
    EndsOne running call × AllEndOne (after_call running t call) (step t call).0 calls

pub count_request-drop_one :
    (a i r b j q : String) (running : Requests)
    → 0 < count_request a i r running
    → count_request b j q (drop_one a i r running) + (if same_request a i r b j q then 1 else 0)
      ≡ count_request b j q running
unfolding count_request drop_one
count_request-drop_one a i r b j q [] h = absurd (omega (arith, h))
count_request-drop_one a i r b j q ((x, y, z) ∷ rest) h =
    elim (Bool-cases (same_request x y z a i r)) [
      | inl same ↦ ground (arith, same, eq_iff x a, eq_iff y i, eq_iff z r)
      | inr other ↦
          ground (arith, other, count_request-drop_one a i r b j q rest (ground (arith, h, other)))
    ]

pub count_account-drop_one :
    (a i r b : String) (running : Requests)
    → 0 < count_request a i r running
    → count_account b (drop_one a i r running) + (if str_eq a b then 1 else 0)
      ≡ count_account b running
unfolding count_request count_account drop_one
count_account-drop_one a i r b [] h = absurd (omega (arith, h))
count_account-drop_one a i r b ((x, y, z) ∷ rest) h = elim (Bool-cases (same_request x y z a i r)) [
  | inl same ↦ ground (arith, same, eq_iff x a)
  | inr other ↦
      ground (arith, other, count_account-drop_one a i r b rest (ground (arith, h, other)))
]

-- ===== src/Inflight/Admission.antt =====
-- The concurrency limit: `tryAcquire` reserves one slot or refuses, and the limit is never passed.
use tiller_router.Prelude.{
  ℕ, ◌+◌, ◌≤◌, String, str_eq, eq_iff, ◌≡◌, refl, ap, Bool, true, false, not, ◌&&◌, List, [], ◌∷◌,
  ◌==◌, if◌then◌else◌, arith, Bool-cases, inl, inr,
}
use tiller_router.Prelude.Int.{ℤ, pos}
use tiller_router.Prelude.Text.{nul_free}
use tiller_router.Prelude.Table.{
  Table, get, put, total, weight_at, total-put, total-delete, Distinct, Distinct-put,
  Distinct-delete,
}
use tiller_router.Inflight.{
  InflightState, InflightTracker, or_zero, new_tracker, active_in, at_limit, inflight_client_key,
  inflight_target_key, active_client_requests_locked, release, store_or_drop, client_start_locked,
  client_start, try_acquire, client_streaming, client_resolved, client_end, target_start,
  target_end,
}
use tiller_router.Inflight.Keys.{prefix-client_key}
use tiller_router.Inflight.History.{
  Call, started, acquired, streamed, resolved, ended, target_started, target_ended, skipped, step,
  run, Admissible, AllAdmissible,
}

-- One more request of the account, and none of another.
pub active-client_start :
    (t : InflightTracker) (a i r m b : String)
    → nul_free a ≡ true
    → nul_free b ≡ true
    → active_client_requests_locked (client_start_locked t a i r m) b
      ≡ active_client_requests_locked t b + (if str_eq a b then 1 else 0)
unfolding active_client_requests_locked client_start_locked
active-client_start t a i r m b fa fb =
    let key = inflight_client_key a i r in
    let s = or_zero (get t.client_states key) in
    let s' = record s { active = s.active + 1; requested_model = m; client_id = i; route_id = r } in
    ground (arith, total-put (active_in b) t.client_states key s', prefix-client_key a b i r fa fb)

-- For accounts without NUL: `tryAcquire` admits exactly below the limit. If it admits, the account
-- has one running request more and every other account as many as before; if it refuses, nothing
-- changes and nothing is emitted.
pub try_acquire_slots :
    (t : InflightTracker) (account : String) (limit : ℤ) (id route model other : String)
    → nul_free account ≡ true
    → nul_free other ≡ true
    → ((try_acquire t account limit id route model).1
        ≡ not (at_limit limit (active_client_requests_locked t account)))
      × ((try_acquire t account limit id route model).1 ≡ true
          → active_client_requests_locked (try_acquire t account limit id route model).0 other
            ≡ active_client_requests_locked t other + (if str_eq account other then 1 else 0))
      × ((try_acquire t account limit id route model).1 ≡ false
          → try_acquire t account limit id route model ≡ (t, false, []))
unfolding try_acquire client_start
try_acquire_slots t account limit id route model other fa fb =
    let started = active-client_start t account id route model other fa fb in
    elim (Bool-cases (at_limit limit (active_client_requests_locked t account))) [
      | inl full ↦ (rw full, rw full (λ h. absurd (cc)), rw full (λ h. refl))
      | inr room ↦ (rw room, rw room (λ h. started), rw room (λ h. absurd (cc)))
    ]

pub total-store_or_drop :
    (b key : String) (m : Table InflightState) (s : InflightState)
    → Distinct m
    → total (active_in b) (store_or_drop m key s) + weight_at (active_in b) key (get m key)
      ≡ total (active_in b) m + active_in b key s
unfolding store_or_drop
total-store_or_drop b key m s d =
    ground (arith, total-put (active_in b) m key s, total-delete (active_in b) m key d)

pub Distinct-store_or_drop :
    (key : String) (m : Table InflightState) (s : InflightState)
    → Distinct m
    → Distinct (store_or_drop m key s)
unfolding store_or_drop
Distinct-store_or_drop key m s d = elim (Bool-cases (s.active == 0 && s.streaming == 0)) [
  | inl idle ↦ rw idle (Distinct-delete m key d)
  | inr busy ↦ rw busy (Distinct-put m key s d)
]

-- What a call may change of the tickets: the map keeps its keys distinct, and the running requests of
-- an account do not grow.
record Calm (b : String) (t t' : InflightTracker) : Type 0 where
  distinct : Distinct t.client_states → Distinct t'.client_states
  no_more :
      Distinct t.client_states
      → active_client_requests_locked t' b ≤ active_client_requests_locked t b

Calm-refl : (b : String) (t : InflightTracker) → Calm b t t
Calm-refl b t = record { distinct = λ d. d; no_more = λ d. omega arith }

-- A write that leaves the active counter as it is.
Calm-put :
    (b key : String) (t : InflightTracker) (s : InflightState)
    → s.active ≡ (or_zero (get t.client_states key)).active
    → Calm b t (record t { client_states = put t.client_states key s })
unfolding active_client_requests_locked
Calm-put b key t s same = record {
  distinct = Distinct-put t.client_states key s;
  no_more = λ d. ground (arith, total-put (active_in b) t.client_states key s);
}

Calm-client_resolved :
    (b : String) (t : InflightTracker) (a i r m : String) → Calm b t (client_resolved t a i r m).0
unfolding client_resolved
Calm-client_resolved b t a i r m = elim (Bool-cases (str_eq m "")) [
  | inl empty ↦ rw empty (Calm-refl b t)
  | inr given ↦ rw given (Calm-put b (inflight_client_key a i r) t _ refl)
]

Calm-client_end :
    (b : String) (t : InflightTracker) (a i r : String) (s : Bool)
    → Calm b t (client_end t a i r s).0
unfolding client_end release active_client_requests_locked
Calm-client_end b t a i r s =
    let key = inflight_client_key a i r in
    let state = or_zero (get t.client_states key) in
    let after = (release state s).0 in
    elim (Bool-cases (state.active == 0 && state.streaming == 0)) [
      | inl idle ↦ rw idle (Calm-refl b t)
      | inr busy ↦ rw busy (record {
        distinct = Distinct-store_or_drop key t.client_states after;
        no_more = λ d. ground (arith, total-store_or_drop b key t.client_states after d);
      })
    ]

Calm-target_end :
    (b : String) (t : InflightTracker) (a r x : String) → Calm b t (target_end t a r x).0
unfolding target_end active_client_requests_locked
Calm-target_end b t a r x =
    let state = or_zero (get t.target_states (inflight_target_key a r x)) in
    elim (Bool-cases (state.active == 0)) [
      | inl idle ↦ rw idle (Calm-refl b t)
      | inr busy ↦ rw busy (record { distinct = λ d. d; no_more = λ d. omega arith })
    ]

-- The calls of an account whose requests all ask for a slot under one limit.
abbrev pub Limited : String → ℕ → Call → Type 0
Limited b n (started a i r m) = str_eq a b ≡ false
Limited b n (acquired a limit i r m) = str_eq a b ≡ true → limit ≡ pos n
Limited b n (streamed a i r) = Unit
Limited b n (resolved a i r m) = Unit
Limited b n (ended a i r s) = Unit
Limited b n (target_started a r x) = Unit
Limited b n (target_ended a r x) = Unit
Limited b n (skipped a r i x f) = Unit

abbrev pub AllLimited : String → ℕ → List Call → Type 0
AllLimited b n [] = Unit
AllLimited b n (call ∷ calls) = Limited b n call × AllLimited b n calls

-- The running requests of the account stay within the limit.
record Within (b : String) (n : ℕ) (t : InflightTracker) : Type 0 where
  distinct : Distinct t.client_states
  within : active_client_requests_locked t b ≤ n

Within-Calm :
    (b : String) (n : ℕ) (t t' : InflightTracker) → Calm b t t' → Within b n t → Within b n t'
Within-Calm b n t t' c w = record {
  distinct = c.distinct w.distinct;
  within = omega (arith, c.no_more w.distinct, w.within);
}

Within-start :
    (b : String) (n : ℕ) (t : InflightTracker) (a i r m : String)
    → nul_free a ≡ true
    → nul_free b ≡ true
    → active_client_requests_locked t b + (if str_eq a b then 1 else 0) ≤ n
    → Within b n t
    → Within b n (client_start_locked t a i r m)
Within-start b n t a i r m fa fb room w = record {
  distinct = unfold client_start_locked in Distinct-put t.client_states _ _ w.distinct;
  within = rw (active-client_start t a i r m b fa fb) room;
}

room_left :
    (b : String) (n : ℕ) (t : InflightTracker) (a : String) (limit : ℤ)
    → (str_eq a b ≡ true → limit ≡ pos n)
    → at_limit limit (active_client_requests_locked t a) ≡ false
    → active_client_requests_locked t b ≤ n
    → active_client_requests_locked t b + (if str_eq a b then 1 else 0) ≤ n
room_left b n t a limit lim room w = elim (Bool-cases (str_eq a b)) [
  | inl same ↦
      let counts = ap (active_client_requests_locked t) ((eq_iff a b).0 same) in
      ground (arith, lim same, counts)
  | inr other ↦ rw other (omega arith)
]

Within-try_acquire :
    (b : String) (n : ℕ) (t : InflightTracker) (a : String) (limit : ℤ) (i r m : String)
    → nul_free a ≡ true
    → nul_free b ≡ true
    → (str_eq a b ≡ true → limit ≡ pos n)
    → Within b n t
    → Within b n (try_acquire t a limit i r m).0
unfolding try_acquire client_start
Within-try_acquire b n t a limit i r m fa fb lim w =
    elim (Bool-cases (at_limit limit (active_client_requests_locked t a))) [
      | inl full ↦ rw full w
      | inr room ↦
          rw room (Within-start b n t a i r m fa fb (room_left b n t a limit lim room w.within) w)
    ]

Within-step :
    (b : String) (n : ℕ) (t : InflightTracker) (call : Call)
    → nul_free b ≡ true
    → Admissible call
    → Limited b n call
    → Within b n t
    → Within b n (step t call).0
unfolding step client_start client_streaming target_start active_client_requests_locked
Within-step b n t (started a i r m) fb p l w =
    Within-start b n t a i r m p.0 fb (ground (arith, w.within)) w
Within-step b n t (acquired a limit i r m) fb p l w =
    Within-try_acquire b n t a limit i r m p.0 fb l w
Within-step b n t (streamed a i r) fb p l w =
    Within-Calm b n t _ (Calm-put b (inflight_client_key a i r) t _ refl) w
Within-step b n t (resolved a i r m) fb p l w =
    Within-Calm b n t _ (Calm-client_resolved b t a i r m) w
Within-step b n t (ended a i r s) fb p l w = Within-Calm b n t _ (Calm-client_end b t a i r s) w
Within-step b n t (target_started a r x) fb p l w = record {
  distinct = w.distinct;
  within = w.within;
}
Within-step b n t (target_ended a r x) fb p l w = Within-Calm b n t _ (Calm-target_end b t a r x) w
Within-step b n t (skipped a r i x f) fb p l w = w

Within-run :
    (b : String) (n : ℕ) (t : InflightTracker) (calls : List Call)
    → nul_free b ≡ true
    → AllAdmissible calls
    → AllLimited b n calls
    → Within b n t
    → Within b n (run t calls).0
unfolding run
Within-run b n t [] fb p l w = w
Within-run b n t (call ∷ calls) fb p l w =
    Within-run b n (step t call).0 calls fb p.1 l.1 (Within-step b n t call fb p.0 l.0 w)

-- For ids without NUL: if every request of an account asks for a slot under the limit n, then after
-- any calls on an empty tracker, those of other accounts and ends that come twice included, the
-- tracker counts at most n requests of the account.
pub active-run-le_limit :
    (account : String) (n : ℕ) (calls : List Call)
    → nul_free account ≡ true
    → AllAdmissible calls
    → AllLimited account n calls
    → active_client_requests_locked (run new_tracker calls).0 account ≤ n
active-run-le_limit account n calls free p l =
    (Within-run account n new_tracker calls free p l (record {
      distinct = tt;
      within = unfold active_client_requests_locked total in omega arith;
    })).within

-- ===== src/Inflight/Ledger.antt =====
-- The deltas that the tracker's methods emit add up to its counters.
use tiller_router.Prelude.{
  ℕ, ◌+◌, String, str_eq, eq_iff, ◌≡◌, ◌≢◌, refl, Bool, true, ◌&&◌, List, [], ◌∷◌, ◌++◌,
  if◌then◌else◌, arith, Bool-cases, inl, inr,
}
use tiller_router.Prelude.Int.{ℤ, pos_part, neg_part}
use tiller_router.Prelude.Text.{nul_free}
use tiller_router.Prelude.Table.{Table, get, get-put, get-delete}
use tiller_router.Inflight.{
  InflightState, InflightDelta, InflightTracker, Emitted, or_zero, new_tracker, inflight_client_key,
  active_client_requests_locked, at_limit, release, store_or_drop, client_start_locked,
  client_start, try_acquire, client_streaming, client_resolved, client_end, target_start,
  target_end, target_skipped,
}
use tiller_router.Inflight.Keys.{client_key_eq}
use tiller_router.Inflight.History.{
  Call, started, acquired, streamed, resolved, ended, target_started, target_ended, skipped, step,
  run, Admissible, AllAdmissible,
}

-- The deltas of one ticket.
abbrev pub for_ticket : String → String → String → String × InflightDelta → Bool
for_ticket account id route (a, d) = str_eq a account && str_eq d.client_id id && str_eq d.id route

-- The sum of one number of each delta of the ticket.
unfoldable pub booked : (InflightDelta → ℕ) → String → String → String → Emitted → ℕ
booked f account id route [] = 0
booked f account id route ((a, d) ∷ rest) =
    (if for_ticket account id route (a, d) then f d else 0) + booked f account id route rest

booked-append :
    (f : InflightDelta → ℕ) (account id route : String) (e e' : Emitted)
    → booked f account id route (e ++ e')
      ≡ booked f account id route e + booked f account id route e'
unfolding booked
booked-append f account id route [] e' = omega arith
booked-append f account id route (x ∷ e) e' = omega (arith, booked-append f account id route e e')

abbrev pub raised : InflightDelta → ℕ
raised d = pos_part d.active

abbrev pub lowered : InflightDelta → ℕ
lowered d = neg_part d.active

abbrev pub streams_raised : InflightDelta → ℕ
streams_raised d = pos_part d.streaming

abbrev pub streams_lowered : InflightDelta → ℕ
streams_lowered d = neg_part d.streaming

abbrev pub ticket : InflightTracker → String → String → String → InflightState
ticket t account id route = or_zero (get t.client_states (inflight_client_key account id route))

-- What was booked up and the counter before are what was booked down and the counter after.
abbrev pub Balanced :
    String → String → String → InflightTracker → InflightTracker × Emitted → Type 0
Balanced account id route t (t', e) =
    (booked raised account id route e + (ticket t account id route).active
      ≡ booked lowered account id route e + (ticket t' account id route).active)
    × (booked streams_raised account id route e + (ticket t account id route).streaming
        ≡ booked streams_lowered account id route e + (ticket t' account id route).streaming)

module _ (account id route : String) (free : nul_free account ≡ true)
    (free_id : nul_free id ≡ true) where
  client_start-Balanced :
      (t : InflightTracker) (a i r m : String)
      → nul_free a ≡ true
      → nul_free i ≡ true
      → Balanced account id route t (client_start t a i r m)
  unfolding client_start client_start_locked booked
  client_start-Balanced t a i r m fa fi =
      let key = inflight_client_key a i r in
      let key' = inflight_client_key account id route in
      let s = or_zero (get t.client_states key) in
      let s' = record s {
        active = s.active + 1;
        requested_model = m;
        client_id = i;
        route_id = r;
      } in
      ground (
        arith,
        get-put t.client_states key key' s',
        eq_iff key key',
        client_key_eq a account i id r route fa free fi free_id,
      )

  try_acquire-Balanced :
      (t : InflightTracker) (a : String) (limit : ℤ) (i r m : String)
      → nul_free a ≡ true
      → nul_free i ≡ true
      → Balanced account id route t (step t (acquired a limit i r m))
  unfolding step try_acquire booked
  try_acquire-Balanced t a limit i r m fa fi =
      elim (Bool-cases (at_limit limit (active_client_requests_locked t a))) [
        | inl full ↦ rw full (refl, refl)
        | inr room ↦ rw room (client_start-Balanced t a i r m fa fi)
      ]

  client_streaming-Balanced :
      (t : InflightTracker) (a i r : String)
      → nul_free a ≡ true
      → nul_free i ≡ true
      → Balanced account id route t (client_streaming t a i r)
  unfolding client_streaming booked
  client_streaming-Balanced t a i r fa fi =
      let key = inflight_client_key a i r in
      let key' = inflight_client_key account id route in
      let s = or_zero (get t.client_states key) in
      let s' = record s { streaming = s.streaming + 1; client_id = i; route_id = r } in
      ground (
        arith,
        get-put t.client_states key key' s',
        eq_iff key key',
        client_key_eq a account i id r route fa free fi free_id,
      )

  client_resolved-Balanced :
      (t : InflightTracker) (a i r m : String)
      → nul_free a ≡ true
      → nul_free i ≡ true
      → Balanced account id route t (client_resolved t a i r m)
  unfolding client_resolved booked
  client_resolved-Balanced t a i r m fa fi =
      let key = inflight_client_key a i r in
      let key' = inflight_client_key account id route in
      let s = or_zero (get t.client_states key) in
      let s' = record s { resolved_model = m; client_id = i; route_id = r } in
      elim (Bool-cases (str_eq m "")) [
        | inl empty ↦ rw empty (refl, refl)
        | inr given ↦ ground (
          arith,
          get-put t.client_states key key' s',
          eq_iff key key',
          client_key_eq a account i id r route fa free fi free_id,
        )
      ]

  -- The ticket as it reads after an end, dropped or stored.
  pub ticket-store_or_drop :
      (m : Table InflightState) (key key' : String) (s : InflightState)
      → ((or_zero (get (store_or_drop m key s) key')).active
          ≡ (if str_eq key key' then s.active else (or_zero (get m key')).active))
        × ((or_zero (get (store_or_drop m key s) key')).streaming
            ≡ (if str_eq key key' then s.streaming else (or_zero (get m key')).streaming))
  unfolding store_or_drop
  ticket-store_or_drop m key key' s = ground (arith, get-put m key key' s, get-delete m key key')

  client_end-Balanced :
      (t : InflightTracker) (a i r : String) (s : Bool)
      → nul_free a ≡ true
      → nul_free i ≡ true
      → Balanced account id route t (client_end t a i r s)
  unfolding client_end release booked
  client_end-Balanced t a i r s fa fi =
      let key = inflight_client_key a i r in
      let key' = inflight_client_key account id route in
      let state = or_zero (get t.client_states key) in
      ground (
        arith,
        ticket-store_or_drop t.client_states key key' (release state s).0,
        eq_iff key key',
        client_key_eq a account i id r route fa free fi free_id,
      )

module _ (account id route : String) (free : nul_free account ≡ true) (free_id : nul_free id ≡ true)
    (named : id ≢ "") where
  -- The deltas of a target leg carry no client id.
  step-Balanced :
      (t : InflightTracker) (call : Call)
      → Admissible call
      → Balanced account id route t (step t call)
  unfolding step
  step-Balanced t (started a i r m) p =
      client_start-Balanced account id route free free_id t a i r m p.0 p.1
  step-Balanced t (acquired a limit i r m) p =
      try_acquire-Balanced account id route free free_id t a limit i r m p.0 p.1
  step-Balanced t (streamed a i r) p =
      client_streaming-Balanced account id route free free_id t a i r p.0 p.1
  step-Balanced t (resolved a i r m) p =
      client_resolved-Balanced account id route free free_id t a i r m p.0 p.1
  step-Balanced t (ended a i r s) p =
      client_end-Balanced account id route free free_id t a i r s p.0 p.1
  step-Balanced t (target_started a r x) p =
      unfold target_start booked in ground (arith, eq_iff "" id)
  step-Balanced t (target_ended a r x) p = unfold target_end booked in ground (arith, eq_iff "" id)
  step-Balanced t (skipped a r i x f) p = unfold target_skipped booked in ground arith

  run-Balanced :
      (t : InflightTracker) (calls : List Call)
      → AllAdmissible calls
      → Balanced account id route t (run t calls)
  unfolding run
  run-Balanced t [] p = unfold booked in (refl, refl)
  run-Balanced t (call ∷ calls) p =
      let (t', e) = step t call in
      let (t'', e') = run t' calls in
      let (now, now_streams) = step-Balanced t call p.0 in
      let (later, later_streams) = run-Balanced t' calls p.1 in
      let b = λ (f : InflightDelta → ℕ). booked-append f account id route e e' in
      (
        omega (arith, now, later, b raised, b lowered),
        omega (arith, now_streams, later_streams, b streams_raised, b streams_lowered),
      )

-- For ids without NUL and a client key that is not empty: after any calls on an empty tracker, the
-- deltas of a ticket add up to its counters: what was booked up is what was booked down and what is
-- still in flight, for requests and for streams.
-- The deltas are those that the methods return, in the order of the calls, before the hub drops any.
pub ledger :
    (account id route : String) (calls : List Call)
    → nul_free account ≡ true
    → nul_free id ≡ true
    → id ≢ ""
    → AllAdmissible calls
    → (booked raised account id route (run new_tracker calls).1
        ≡ booked lowered account id route (run new_tracker calls).1
          + (ticket (run new_tracker calls).0 account id route).active)
      × (booked streams_raised account id route (run new_tracker calls).1
          ≡ booked streams_lowered account id route (run new_tracker calls).1
            + (ticket (run new_tracker calls).0 account id route).streaming)
unfolding get
ledger account id route calls free free_id named p =
    omega (arith, run-Balanced account id route free free_id named new_tracker calls p)

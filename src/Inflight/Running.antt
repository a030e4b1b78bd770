-- ===== src/Inflight/Running.antt =====
-- The concurrency limit on the requests themselves, which the tracker's counters tell rightly.
use tiller_router.Prelude.{
  ℕ, ◌+◌, ◌≤◌, ◌<◌, String, str_eq, eq_iff, ◌≡◌, refl, Bool, true, false, ◌&&◌, List, [], ◌∷◌, ◌==◌,
  arith, Bool-cases, inl, inr,
}
use tiller_router.Prelude.Int.{ℤ}
use tiller_router.Prelude.Text.{nul_free}
use tiller_router.Prelude.Table.{get, put, total, total-put, get-put, Distinct, Distinct-put}
use tiller_router.Inflight.{
  InflightState, InflightTracker, or_zero, new_tracker, active_in, at_limit, inflight_client_key,
  active_client_requests_locked, release, client_start_locked, client_start, try_acquire,
  client_streaming, client_resolved, client_end, target_start, target_end,
}
use tiller_router.Inflight.Keys.{prefix-client_key, client_key_eq}
use tiller_router.Inflight.History.{
  Call, started, acquired, streamed, resolved, ended, target_started, target_ended, skipped, step,
  run, Admissible, AllAdmissible,
}
use tiller_router.Inflight.Admission.{
  active-client_start, total-store_or_drop, Distinct-store_or_drop, AllLimited, active-run-le_limit,
}
use tiller_router.Inflight.Ledger.{ticket, ticket-store_or_drop}
use tiller_router.Inflight.Requests.{
  Requests, count_request, count_account, drop_one, after_call, running_after, EndsOne, AllEndOne,
  count_request-drop_one, count_account-drop_one,
}

-- The tracker counts the requests that run: on each ticket, and of the account.
record Counted (b : String) (running : Requests) (t : InflightTracker) : Type 0 where
  distinct : Distinct t.client_states
  tickets :
      (a i r : String)
      → nul_free a ≡ true
      → nul_free i ≡ true
      → (ticket t a i r).active ≡ count_request a i r running
  account : active_client_requests_locked t b ≡ count_account b running

module _ (b : String) (fb : nul_free b ≡ true) where
  Counted-start :
      (running : Requests) (t : InflightTracker) (a i r m : String)
      → nul_free a ≡ true
      → nul_free i ≡ true
      → Counted b running t
      → Counted b ((a, i, r) ∷ running) (client_start_locked t a i r m)
  unfolding count_request count_account
  Counted-start running t a i r m fa fi c = record {
    distinct = unfold client_start_locked in Distinct-put t.client_states _ _ c.distinct;
    tickets = λ a' i' r' fa' fi'.
        let key = inflight_client_key a i r in
        let key' = inflight_client_key a' i' r' in
        let s = or_zero (get t.client_states key) in
        let s' = record s {
          active = s.active + 1;
          requested_model = m;
          client_id = i;
          route_id = r;
        } in
        unfold client_start_locked in
        ground (
          arith,
          get-put t.client_states key key' s',
          eq_iff key key',
          client_key_eq a a' i i' r r' fa fa' fi fi',
          c.tickets a' i' r' fa' fi',
        );
    account = omega (arith, active-client_start t a i r m b fa fb, c.account);
  }

  -- A write that leaves the active counter as it is.
  Counted-put :
      (running : Requests) (t : InflightTracker) (key : String) (s : InflightState)
      → s.active ≡ (or_zero (get t.client_states key)).active
      → Counted b running t
      → Counted b running (record t { client_states = put t.client_states key s })
  unfolding active_client_requests_locked
  Counted-put running t key s same c = record {
    distinct = Distinct-put t.client_states key s c.distinct;
    tickets = λ a i r fa fi. ground (
      arith,
      get-put t.client_states key (inflight_client_key a i r) s,
      eq_iff key (inflight_client_key a i r),
      c.tickets a i r fa fi,
      same,
    );
    account = ground (arith, total-put (active_in b) t.client_states key s, same, c.account);
  }

  Counted-end :
      (running : Requests) (t : InflightTracker) (a i r : String) (s : Bool)
      → nul_free a ≡ true
      → nul_free i ≡ true
      → 0 < count_request a i r running
      → Counted b running t
      → Counted b (drop_one a i r running) (client_end t a i r s).0
  unfolding client_end release active_client_requests_locked
  Counted-end running t a i r s fa fi one c =
      let key = inflight_client_key a i r in
      let state = or_zero (get t.client_states key) in
      let after = (release state s).0 in
      let here = c.tickets a i r fa fi in
      let busy : (state.active == 0 && state.streaming == 0) ≡ false = ground (arith, one, here) in
      rw busy (record {
        distinct = Distinct-store_or_drop key t.client_states after c.distinct;
        tickets = λ a' i' r' fa' fi'.
            let key' = inflight_client_key a' i' r' in
            ground (
              arith,
              (ticket-store_or_drop a i r fa fi t.client_states key key' after).0,
              eq_iff key key',
              client_key_eq a a' i i' r r' fa fa' fi fi',
              c.tickets a' i' r' fa' fi',
              here,
              one,
              count_request-drop_one a i r a' i' r' running one,
            );
        account = ground (
          arith,
          total-store_or_drop b key t.client_states after c.distinct,
          prefix-client_key a b i r fa fb,
          c.account,
          here,
          one,
          count_account-drop_one a i r b running one,
        );
      })

  Counted-acquire :
      (running : Requests) (t : InflightTracker) (a : String) (limit : ℤ) (i r m : String)
      → nul_free a ≡ true
      → nul_free i ≡ true
      → Counted b running t
      → Counted b
          (after_call running t (acquired a limit i r m))
          (step t (acquired a limit i r m)).0
  unfolding after_call step try_acquire client_start
  Counted-acquire running t a limit i r m fa fi c =
      elim (Bool-cases (at_limit limit (active_client_requests_locked t a))) [
        | inl full ↦ rw full c
        | inr room ↦ rw room (Counted-start running t a i r m fa fi c)
      ]

  Counted-resolved :
      (running : Requests) (t : InflightTracker) (a i r m : String)
      → Counted b running t
      → Counted b running (client_resolved t a i r m).0
  unfolding client_resolved
  Counted-resolved running t a i r m c = elim (Bool-cases (str_eq m "")) [
    | inl empty ↦ rw empty c
    | inr given ↦ rw given (Counted-put running t (inflight_client_key a i r) _ refl c)
  ]

  -- What happens on the target legs leaves the tickets alone.
  Counted-legs :
      (running : Requests) (t t' : InflightTracker)
      → t'.client_states ≡ t.client_states
      → Counted b running t
      → Counted b running t'
  unfolding active_client_requests_locked
  Counted-legs running t t' e c = record {
    distinct = rw e c.distinct;
    tickets = rw e c.tickets;
    account = rw e c.account;
  }

  Counted-step :
      (running : Requests) (t : InflightTracker) (call : Call)
      → Admissible call
      → EndsOne running call
      → Counted b running t
      → Counted b (after_call running t call) (step t call).0
  unfolding step after_call client_start client_streaming
  Counted-step running t (started a i r m) p e c = Counted-start running t a i r m p.0 p.1 c
  Counted-step running t (acquired a limit i r m) p e c =
      Counted-acquire running t a limit i r m p.0 p.1 c
  Counted-step running t (streamed a i r) p e c =
      Counted-put running t (inflight_client_key a i r) _ refl c
  Counted-step running t (resolved a i r m) p e c = Counted-resolved running t a i r m c
  Counted-step running t (ended a i r s) p e c = Counted-end running t a i r s p.0 p.1 e c
  Counted-step running t (target_started a r x) p e c =
      Counted-legs running t _ (unfold target_start in refl) c
  Counted-step running t (target_ended a r x) p e c =
      Counted-legs running t _ (unfold target_end in ground arith) c
  Counted-step running t (skipped a r i x f) p e c = c

  Counted-run :
      (running : Requests) (t : InflightTracker) (calls : List Call)
      → AllAdmissible calls
      → AllEndOne running t calls
      → Counted b running t
      → Counted b (running_after running t calls) (run t calls).0
  unfolding run running_after
  Counted-run running t [] p e c = c
  Counted-run running t (call ∷ calls) p e c =
      Counted-run (after_call running t call) (step t call).0 calls p.1 e.1
        (Counted-step running t call p.0 e.0 c)

-- For ids without NUL: if every request of an account asks for a slot under the limit n, and each end is that
-- of a request that is running, then after any calls on an empty tracker, those of other accounts included,
-- at most n requests of the account are running: those that were started or admitted and have not ended,
-- told by the calls and the answers of `tryAcquire`.
pub running_after-le_limit :
    (account : String) (n : ℕ) (calls : List Call)
    → nul_free account ≡ true
    → AllAdmissible calls
    → AllLimited account n calls
    → AllEndOne [] new_tracker calls
    → count_account account (running_after [] new_tracker calls) ≤ n
unfolding get active_client_requests_locked total count_request count_account
running_after-le_limit account n calls free p l e =
    let empty : Counted account [] new_tracker = record {
      distinct = tt;
      tickets = λ a i r fa fi. refl;
      account = refl;
    } in
    rw⁻¹ (Counted-run account free [] new_tracker calls p e empty).account
      (active-run-le_limit account n calls free p l)

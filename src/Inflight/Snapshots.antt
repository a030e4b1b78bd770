-- ===== src/Inflight/Snapshots.antt =====
-- What the snapshots of one account show: each ticket under its client and route, and per client the
-- sum over its routes.
use tiller_router.Prelude.{
  ℕ, ◌+◌, String, str_eq, eq_iff, ◌≡◌, ◌≢◌, refl, sym, ap, ◌∙◌, true, false, ◌&&◌, Option, none,
  some, [], ◌∷◌, if◌then◌else◌, arith, Bool-cases, Bool-ext, inl, inr,
}
use tiller_router.Prelude.Text.{
  has_prefix, cut_prefix, ◌+++◌, has_prefix-append, cut_prefix-append, append-cut_prefix,
}
use tiller_router.Prelude.Table.{Table, get, put, total, get-put, Distinct}
use tiller_router.Tenant.{tenant_key, tenant_prefix}
use tiller_router.Inflight.{
  InflightState, InflightTracker, or_zero, inflight_client_key, snapshot_from, copy_state,
  fold_client, client_route_snapshot, client_snapshot,
}
use tiller_router.Inflight.Keys.{client_key_split}

abbrev or_else : Option InflightState → Option InflightState → Option InflightState
or_else none rest = rest
or_else (some s) rest = some s

cut_key : (p k x : String) → has_prefix k p ≡ true → str_eq (cut_prefix k p) x ≡ str_eq k (p +++ x)
cut_key p k x h =
    Bool-ext _ _
      (λ e. (eq_iff _ _).1 (sym (append-cut_prefix k p h) ∙ ap (λ s. p +++ s) ((eq_iff _ _).0 e)))
      (λ e. (eq_iff _ _).1 (ap (λ s. cut_prefix s p) ((eq_iff _ _).0 e) ∙ cut_prefix-append p x))

no_prefix : (p k x : String) → has_prefix k p ≡ false → str_eq k (p +++ x) ≡ false
no_prefix p k x h = ground (arith, eq_iff k (p +++ x), has_prefix-append p x)

get-snapshot_from :
    (account : String) (m out : Table InflightState) (x : String)
    → Distinct m
    → get (snapshot_from (copy_state account) account m out) x
      ≡ or_else (get m (tenant_prefix account +++ x)) (get out x)
unfolding snapshot_from get
get-snapshot_from account [] out x d = refl
get-snapshot_from account ((k, s) ∷ m) out x d =
    let p = tenant_prefix account in
    let ih = λ (o : Table InflightState). get-snapshot_from account m o x d.1 in
    elim (Bool-cases (has_prefix k p)) [
      | inl mine ↦ ground (
        arith,
        ih (put out (cut_prefix k p) s),
        get-put out (cut_prefix k p) x s,
        cut_key p k x mine,
        eq_iff k (p +++ x),
        d.0,
      )
      | inr other ↦ ground (arith, ih out, no_prefix p k x other)
    ]

or_else-none : (o : Option InflightState) → or_else o none ≡ o
or_else-none none = refl
or_else-none (some s) = refl

prefix_key :
    (account id route : String)
    → tenant_prefix account +++ tenant_key id route ≡ inflight_client_key account id route
unfolding tenant_prefix
prefix_key account id route = sym (unfold tenant_key in client_key_split account id route)

-- In a tracker that holds no ticket twice, the snapshot of an account shows each of its tickets
-- under the client and the route, and nothing where it has no ticket.
pub get-client_route_snapshot :
    (t : InflightTracker) (account id route : String)
    → Distinct t.client_states
    → get (client_route_snapshot t account) (tenant_key id route)
      ≡ get t.client_states (inflight_client_key account id route)
unfolding client_route_snapshot get
get-client_route_snapshot t account id route d =
    get-snapshot_from account t.client_states [] (tenant_key id route) d
    ∙ or_else-none (get t.client_states (tenant_prefix account +++ tenant_key id route))
    ∙ ap (get t.client_states) (prefix_key account id route)

-- The weight of an entry in the sum for one client.
abbrev pub in_client : (InflightState → ℕ) → String → String → String → InflightState → ℕ
in_client f account id key s =
    if has_prefix key (tenant_prefix account) && str_eq s.client_id id then f s else 0

fold_client_one :
    (key id : String) (s : InflightState) (out : Table InflightState)
    → id ≢ ""
    → ((or_zero (get (fold_client key s out) id)).active
        ≡ (if str_eq s.client_id id then s.active else 0) + (or_zero (get out id)).active)
      × ((or_zero (get (fold_client key s out) id)).streaming
          ≡ (if str_eq s.client_id id then s.streaming else 0) + (or_zero (get out id)).streaming)
unfolding fold_client
fold_client_one key id s out h =
    let agg = or_zero (get out s.client_id) in
    let sum = record agg {
      active = agg.active + s.active;
      streaming = agg.streaming + s.streaming;
    } in
    ground (
      arith,
      get-put out s.client_id id sum,
      eq_iff s.client_id id,
      eq_iff s.client_id "",
      eq_iff id "",
    )

fold_client_sum :
    (account id : String) (m out : Table InflightState)
    → id ≢ ""
    → ((or_zero (get (snapshot_from fold_client account m out) id)).active
        ≡ total (in_client (λ s. s.active) account id) m + (or_zero (get out id)).active)
      × ((or_zero (get (snapshot_from fold_client account m out) id)).streaming
          ≡ total (in_client (λ s. s.streaming) account id) m + (or_zero (get out id)).streaming)
unfolding snapshot_from total
fold_client_sum account id [] out h = omega arith
fold_client_sum account id ((k, s) ∷ m) out h =
    elim (Bool-cases (has_prefix k (tenant_prefix account))) [
      | inl mine ↦ ground (
        arith,
        fold_client_sum account id m (fold_client k s out) h,
        fold_client_one k id s out h,
      )
      | inr other ↦ ground (arith, fold_client_sum account id m out h)
    ]

-- Under a client's id, which is not empty, the per-client snapshot shows the sum of its tickets of
-- this account over all routes: running requests and streams.
pub client_snapshot-sum :
    (t : InflightTracker) (account id : String)
    → id ≢ ""
    → ((or_zero (get (client_snapshot t account) id)).active
        ≡ total (in_client (λ s. s.active) account id) t.client_states)
      × ((or_zero (get (client_snapshot t account) id)).streaming
          ≡ total (in_client (λ s. s.streaming) account id) t.client_states)
unfolding client_snapshot get
client_snapshot-sum t account id h = omega (arith, fold_client_sum account id t.client_states [] h)

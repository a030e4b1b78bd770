-- ===== src/Cooldown/Snapshot.antt =====
-- `snapshot` shows exactly the targets of the account that are still cooling.
use mathlib.Core.Option
use tiller_router.Prelude.{
  ℕ, String, str_eq, eq_iff, ◌≡◌, refl, ap, ◌∙◌, true, ◌&&◌, Option, none, some, [], ◌∷◌, ltb,
  if◌then◌else◌, arith, Bool-cases, inl, inr, sift,
}
use tiller_router.Prelude.Text.{has_prefix, nul_free}
use tiller_router.Prelude.Table.{Table, get, put, Distinct, get-put, get-keep}
use tiller_router.Tenant.{tenant_key, tenant_prefix, prefix-tenant_key, tenant_key_eq}
use tiller_router.Cooldown.{
  CooldownEntry, CooldownStore, CooldownView, prune_expired, live_at, view_of, snapshot_from,
  snapshot,
}
use tiller_router.Cooldown.WellFormed.{WellFormed, WellFormed-prune_expired, IsKeyOf}

abbrev or_view : (ℕ → String) → Option CooldownEntry → Option CooldownView → Option CooldownView
or_view format none rest = rest
or_view format (some e) rest = some (view_of format e)

module _ (format : ℕ → String) (account : String) (now : ℕ) (free : nul_free account ≡ true) where
  get-snapshot_from :
      (m : Table CooldownEntry) (out : Table CooldownView) (id : String)
      → Distinct m
      → ((key : String) (e : CooldownEntry) → get m key ≡ some e → IsKeyOf key e)
      → get (snapshot_from format account now m out) id
        ≡ or_view format (sift (live_at now) (get m (tenant_key account id))) (get out id)
  unfolding snapshot_from get
  get-snapshot_from [] out id d keyed = refl
  get-snapshot_from ((k, e) ∷ m) out id d keyed =
      let key = tenant_key account id in
      let (a, a_free, k_is) = keyed k e (ground (arith, eq_iff k k)) in
      let out' =
        if has_prefix k (tenant_prefix account) && ltb now e.until
        then put out e.provider_model_id (view_of format e)
        else out in
      let ih =
        get-snapshot_from m out' id d.1 (λ j x g. keyed j x (ground (arith, eq_iff k j, d.0))) in
      let mine : has_prefix k (tenant_prefix account) ≡ str_eq a account =
        ap (λ s. has_prefix s (tenant_prefix account)) k_is
        ∙ prefix-tenant_key a account e.provider_model_id a_free free in
      let here : str_eq k key ≡ (str_eq a account && str_eq e.provider_model_id id) =
        ap (λ s. str_eq s key) k_is ∙ tenant_key_eq a account e.provider_model_id id a_free free in
      let written = get-put out e.provider_model_id id (view_of format e) in
      let above = d.0 in
      let pick = eq_iff k key in
      elim (Bool-cases (has_prefix k (tenant_prefix account) && ltb now e.until)) [
        | inl shown ↦ ground (arith, ih, mine, here, written, above, pick)
        | inr hidden ↦ ground (arith, ih, mine, here, above, pick)
      ]

-- In a well-formed store, for an account without NUL: what the snapshot shows under an id is the
-- view of the target's entry, if that still cools, and nothing otherwise.
pub get-snapshot :
    (format : ℕ → String) (c : CooldownStore) (account id : String) (now : ℕ)
    → nul_free account ≡ true
    → WellFormed c
    → get (snapshot format c account now).1 id
      ≡ Option.map (view_of format) (sift (live_at now) (get c.until (tenant_key account id)))
unfolding snapshot get
get-snapshot format c account id now free w =
    let key = tenant_key account id in
    let w' = WellFormed-prune_expired c now w in
    let shown =
      get-snapshot_from format account now free (prune_expired c now).until [] id w'.distinct
        w'.keyed in
    ground (arith, shown, get-keep (λ _ e. ltb now e.until) c.until key w.distinct)

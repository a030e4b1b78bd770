-- ===== src/Cooldown/WellFormed.antt =====
-- What holds of every cooldown map: no key twice, and each entry under the key of its own id.
use tiller_router.Prelude.{
  ℕ, String, str_eq, eq_iff, ◌≡◌, Bool, true, not, some, ltb, arith, Bool-cases, inl, inr,
}
use tiller_router.Prelude.Text.{has_prefix, nul_free}
use tiller_router.Prelude.Table.{
  get, put, keep, Distinct, Distinct-put, Distinct-delete, Distinct-keep, get-put, get-delete,
  get-keep,
}
use tiller_router.Tenant.{tenant_key, tenant_prefix}
use tiller_router.Cooldown.{
  CooldownEntry, CooldownStore, new_cooldown_store, prune_expired, set, clear_for, remove,
  remove_by_name, outlasts,
}

-- The key of an account without NUL and the entry's id.
abbrev pub IsKeyOf : String → CooldownEntry → Type 0
IsKeyOf key e =
    (account : String) × (nul_free account ≡ true) × (key ≡ tenant_key account e.provider_model_id)

pub record WellFormed (c : CooldownStore) : Type 0 where
  pub distinct : Distinct c.until
  pub keyed : (key : String) (e : CooldownEntry) → get c.until key ≡ some e → IsKeyOf key e

pub WellFormed-new : WellFormed new_cooldown_store
unfolding new_cooldown_store get
WellFormed-new = record { distinct = tt; keyed = λ key e h. absurd (cc) }

WellFormed-keep :
    (c : CooldownStore) (p : String → CooldownEntry → Bool)
    → WellFormed c
    → WellFormed (record { until = keep p c.until })
WellFormed-keep c p w = record {
  distinct = Distinct-keep p c.until w.distinct;
  keyed = λ key e h. w.keyed key e (ground (arith, get-keep p c.until key w.distinct));
}

pub WellFormed-prune_expired :
    (c : CooldownStore) (now : ℕ) → WellFormed c → WellFormed (prune_expired c now)
unfolding prune_expired
WellFormed-prune_expired c now = WellFormed-keep c (λ _ e. ltb now e.until)

WellFormed-put :
    (c : CooldownStore) (account : String) (e : CooldownEntry)
    → nul_free account ≡ true
    → WellFormed c
    → WellFormed (record { until = put c.until (tenant_key account e.provider_model_id) e })
WellFormed-put c account e p w =
    let key = tenant_key account e.provider_model_id in
    record {
      distinct = Distinct-put c.until key e w.distinct;
      keyed = λ k x h. elim (Bool-cases (str_eq key k)) [
        | inl same ↦ (account, p, ground (arith, get-put c.until key k e, eq_iff key k))
        | inr other ↦ w.keyed k x (ground (arith, get-put c.until key k e))
      ];
    }

pub WellFormed-set :
    (c : CooldownStore) (account : String) (e : CooldownEntry)
    → nul_free account ≡ true
    → WellFormed c
    → WellFormed (set c account e)
unfolding set
WellFormed-set c account e p w =
    let pruned = prune_expired c e.started_at in
    let w' = WellFormed-prune_expired c e.started_at w in
    elim (Bool-cases
      (outlasts (get pruned.until (tenant_key account e.provider_model_id)) e.until)) [
        | inl longer ↦ rw longer w'
        | inr shorter ↦ rw shorter (WellFormed-put pruned account e p w')
      ]

pub WellFormed-clear_for :
    (c : CooldownStore) (account : String) → WellFormed c → WellFormed (clear_for c account)
unfolding clear_for
WellFormed-clear_for c account =
    WellFormed-keep c (λ key _. not (has_prefix key (tenant_prefix account)))

pub WellFormed-remove :
    (c : CooldownStore) (account id : String) → WellFormed c → WellFormed (remove c account id)
unfolding remove
WellFormed-remove c account id w =
    let key = tenant_key account id in
    record {
      distinct = Distinct-delete c.until key w.distinct;
      keyed = λ k x h. w.keyed k x (ground (arith, get-delete c.until key k));
    }

pub WellFormed-remove_by_name :
    (c : CooldownStore) (account provider model : String)
    → WellFormed c
    → WellFormed (remove_by_name c account provider model).0
unfolding remove_by_name
WellFormed-remove_by_name c account provider model = WellFormed-keep c _

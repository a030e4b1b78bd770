-- ===== src/Cooldown/Windows.antt =====
-- How a cooldown window opens, extends and closes: `cooled`, `set` and `remove`.
use tiller_router.Prelude.{ℕ, ◌≤◌, String, str_eq, eq_iff, ◌≡◌, true, not, ◌&&◌, ◌||◌, ltb, arith}
use tiller_router.Prelude.Text.{nul_free}
use tiller_router.Prelude.Table.{keep, Distinct, get-put, get-delete, get-keep}
use tiller_router.Tenant.{tenant_key, tenant_key_eq}
use tiller_router.Cooldown.{CooldownEntry, CooldownStore, cooled, set, remove}

module _ (c : CooldownStore) (distinct : Distinct c.until) where
  -- In a map that holds no key twice, for accounts without NUL, at every time from the failure on:
  -- after `set`, a target is cooling if it was, or if it is the target that failed and the new
  -- window is not over. So a window only extends, and no other target or account is touched.
  pub cooled-set :
      (account : String) (e : CooldownEntry) (account' id : String) (t : ℕ)
      → nul_free account ≡ true
      → nul_free account' ≡ true
      → e.started_at ≤ t
      → cooled (set c account e) account' id t ≡ (
          cooled c account' id t
          || (str_eq account account' && str_eq e.provider_model_id id && ltb t e.until))
  unfolding cooled set
  cooled-set account e account' id t p q h =
      let key = tenant_key account e.provider_model_id in
      let key' = tenant_key account' id in
      let test = λ (_ : String) (x : CooldownEntry). ltb e.started_at x.until in
      ground (
        arith,
        get-keep test c.until key distinct,
        get-keep test c.until key' distinct,
        eq_iff key key',
        get-put (keep test c.until) key key' e,
        tenant_key_eq account account' e.provider_model_id id p q,
      )

  pub cooled-remove :
      (account id account' id' : String) (t : ℕ)
      → nul_free account ≡ true
      → nul_free account' ≡ true
      → cooled (remove c account id) account' id' t
        ≡ (not (str_eq account account' && str_eq id id') && cooled c account' id' t)
  unfolding cooled remove
  cooled-remove account id account' id' t p q = ground (
    arith,
    get-delete c.until (tenant_key account id) (tenant_key account' id'),
    tenant_key_eq account account' id id' p q,
  )

-- ===== src/Cooldown/Release.antt =====
-- A manual release by name (`removeByName`): what it takes away, what it leaves, what it reports.
use tiller_router.Prelude.{
  ℕ, String, str_eq, eq_iff, ◌≡◌, refl, Bool, true, false, not, ◌&&◌, none, some, [], ◌∷◌, arith,
  Bool-cases, Option-cases, inl, inr,
}
use tiller_router.Prelude.Text.{nul_free}
use tiller_router.Prelude.Table.{Table, get, keep, Distinct, get-keep}
use tiller_router.Tenant.{tenant_key, prefix-tenant_key}
use tiller_router.Cooldown.{
  CooldownEntry, CooldownStore, cooled, named, status_by_name, same_names, any_entry,
  remove_by_name,
}
use tiller_router.Cooldown.WellFormed.{WellFormed, WellFormed-remove_by_name}
use tiller_router.Cooldown.Status.{status_by_name-earliest}

get-remove_by_name :
    (c : CooldownStore) (account provider model key : String) (e : CooldownEntry)
    → WellFormed c
    → get (remove_by_name c account provider model).0.until key ≡ some e
    → (get c.until key ≡ some e) × (same_names account provider model key e ≡ false)
unfolding remove_by_name
get-remove_by_name c account provider model key e w h =
    let hit = same_names account provider model in
    let kept = get-keep (λ k x. not (hit k x)) c.until key w.distinct in
    (ground (arith, kept), ground (arith, kept))

same_names_of_named :
    (account provider model key : String) (now : ℕ) (e : CooldownEntry)
    → named account provider model now key e ≡ true
    → same_names account provider model key e ≡ true
unfolding named same_names
same_names_of_named account provider model key now e h = ground arith

-- After a release by name, the account has no cooldown under the two names, at any time.
pub status_by_name-remove_by_name :
    (c : CooldownStore) (account provider model : String) (now : ℕ)
    → WellFormed c
    → status_by_name (remove_by_name c account provider model).0 account provider model now ≡ none
status_by_name-remove_by_name c account provider model now w =
    let c' = (remove_by_name c account provider model).0 in
    elim (Option-cases (status_by_name c' account provider model now)) [
      | inl empty ↦ empty
      | inr (e, found) ↦
          let ((key, k), _) =
            status_by_name-earliest c' account provider model now e
              (WellFormed-remove_by_name c account provider model w) found in
          let (_, kept) = get-remove_by_name c account provider model key e w k.0 in
          absurd (cc (kept, same_names_of_named account provider model key now e k.1))
    ]

-- In a well-formed store, for accounts without NUL: a release by name ends the cooldown of a target
-- that has an entry exactly if the entry is of that account and has both names.
pub cooled-remove_by_name :
    (c : CooldownStore) (account provider model account' id : String) (e : CooldownEntry) (t : ℕ)
    → nul_free account ≡ true
    → nul_free account' ≡ true
    → WellFormed c
    → get c.until (tenant_key account' id) ≡ some e
    → cooled (remove_by_name c account provider model).0 account' id t ≡ (
        not (str_eq account' account && str_eq e.provider provider && str_eq e.model model)
        && cooled c account' id t)
unfolding cooled remove_by_name
cooled-remove_by_name c account provider model account' id e t p q w h =
    let hit = same_names account provider model in
    ground (
      arith,
      get-keep (λ k x. not (hit k x)) c.until (tenant_key account' id) w.distinct,
      prefix-tenant_key account' account id q p,
    )

any_entry-true :
    (p : String → CooldownEntry → Bool) (m : Table CooldownEntry)
    → Distinct m
    → any_entry p m ≡ true
    → (key : String) × (e : CooldownEntry) × (get m key ≡ some e) × (p key e ≡ true)
unfolding any_entry get
any_entry-true p [] d h = absurd (cc)
any_entry-true p ((k, x) ∷ m) d h = elim (Bool-cases (p k x)) [
  | inl pass ↦ (k, x, ground (arith, eq_iff k k), pass)
  | inr fail ↦
      let (key, e, g, t) = any_entry-true p m d.1 (ground arith) in
      (key, e, ground (arith, eq_iff k key, d.0), t)
]

any_entry-false :
    (p : String → CooldownEntry → Bool) (m : Table CooldownEntry)
    → any_entry p m ≡ false
    → keep (λ k e. not (p k e)) m ≡ m
unfolding any_entry keep
any_entry-false p [] h = refl
any_entry-false p ((k, x) ∷ m) h = ground (arith, any_entry-false p m)

-- The reported flag: true only if an entry with the names was there, and false only if the map is
-- left as it was.
pub remove_by_name-removed :
    (c : CooldownStore) (account provider model : String)
    → WellFormed c
    → ((remove_by_name c account provider model).1 ≡ true
        → (key : String) × (e : CooldownEntry) × (get c.until key ≡ some e)
          × (same_names account provider model key e ≡ true))
      × ((remove_by_name c account provider model).1 ≡ false
          → (remove_by_name c account provider model).0 ≡ c)
unfolding remove_by_name
remove_by_name-removed c account provider model w =
    let hit = same_names account provider model in
    (any_entry-true hit c.until w.distinct, λ h. ground (arith, any_entry-false hit c.until h))

-- ===== src/Cooldown/History.antt =====
-- The cooldown store against its history: a target cools exactly while some failure's window is open
-- that no later success or release of it has ended.
use tiller_router.Prelude.{
  ℕ, ◌≤◌, String, str_eq, ◌≡◌, refl, ap, ◌∙◌, eq_iff, Bool, true, false, not, ◌&&◌, Option, none,
  some, if◌then◌else◌, arith, sift, List, [], ◌∷◌, ltb,
}
use tiller_router.Prelude.Text.{nul_free, has_prefix}
use tiller_router.Tenant.{tenant_key, tenant_prefix, tenant_key_eq, prefix-tenant_key}
use tiller_router.Prelude.Table.{get, keep, get-put, get-keep, get-delete}
use tiller_router.Cooldown.{
  CooldownEntry, CooldownStore, new_cooldown_store, live_at, still_open, outlasts, cooled,
  prune_expired, set, clear_for, remove, same_names, remove_by_name,
}
use tiller_router.Cooldown.WellFormed.{
  WellFormed, WellFormed-new, WellFormed-set, WellFormed-clear_for, WellFormed-remove,
  WellFormed-prune_expired, WellFormed-remove_by_name,
}

-- A call on the store: a failure opens a window, an account is cleared, a target succeeds, a target is
-- released by its names, a snapshot prunes.
pub data Call : Type 0 where
  opened : String → CooldownEntry → Call
  cleared : String → Call
  removed : String → String → Call
  released : String → String → String → Call
  pruned : ℕ → Call

pub apply : CooldownStore → Call → CooldownStore
apply c (opened account e) = set c account e
apply c (cleared account) = clear_for c account
apply c (removed account id) = remove c account id
apply c (released account provider model) = (remove_by_name c account provider model).0
apply c (pruned now) = prune_expired c now

pub run : CooldownStore → List Call → CooldownStore
unfolding apply
run c [] = c
run c (call ∷ calls) = run (apply c call) calls

-- The longer of the window that is open and a new one: the new one, where they end together.
abbrev pub longer : Option CooldownEntry → CooldownEntry → CooldownEntry
longer none e = e
longer (some w) e = if ltb e.until w.until then w else e

-- A window of the account, whether it is the released one, under the released names.
abbrev pub bears : Bool → String → String → CooldownEntry → Bool
bears own provider model w = own && str_eq w.provider provider && str_eq w.model model

-- What a call does to the window of one target that is open at one time, told without the store.
pub expect_call : String → String → ℕ → Option CooldownEntry → Call → Option CooldownEntry
expect_call account id t w (opened a e) =
    if str_eq a account && str_eq e.provider_model_id id && ltb t e.until
    then some (longer w e)
    else w
expect_call account id t w (cleared a) = if str_eq account a then none else w
expect_call account id t w (removed a i) = if str_eq a account && str_eq i id then none else w
expect_call account id t w (released a provider model) =
    sift (λ e. not (bears (str_eq account a) provider model e)) w
expect_call account id t w (pruned now) = w

pub expect : String → String → ℕ → Option CooldownEntry → List Call → Option CooldownEntry
unfolding expect_call
expect account id t w [] = w
expect account id t w (call ∷ calls) = expect account id t (expect_call account id t w call) calls

abbrev pub is_open : Option CooldownEntry → Bool
is_open none = false
is_open (some w) = true

-- Accounts hold no NUL, and the clock of the call is not past `t`.
abbrev pub Admissible : ℕ → Call → Type 0
Admissible t (opened a e) = (nul_free a ≡ true) × (e.started_at ≤ t)
Admissible t (cleared a) = nul_free a ≡ true
Admissible t (removed a i) = nul_free a ≡ true
Admissible t (released a provider model) = nul_free a ≡ true
Admissible t (pruned now) = now ≤ t

abbrev pub AllAdmissible : ℕ → List Call → Type 0
AllAdmissible t [] = Unit
AllAdmissible t (call ∷ calls) = Admissible t call × AllAdmissible t calls

WellFormed-apply :
    (c : CooldownStore) (t : ℕ) (call : Call)
    → Admissible t call
    → WellFormed c
    → WellFormed (apply c call)
unfolding apply
WellFormed-apply c t (opened a e) p w = WellFormed-set c a e p.0 w
WellFormed-apply c t (cleared a) p w = WellFormed-clear_for c a w
WellFormed-apply c t (removed a i) p w = WellFormed-remove c a i w
WellFormed-apply c t (released a provider model) p w =
    WellFormed-remove_by_name c a provider model w
WellFormed-apply c t (pruned now) p w = WellFormed-prune_expired c now w

-- The window of a target that is open at t.
abbrev window : CooldownStore → String → String → ℕ → Option CooldownEntry
window c account id t = sift (live_at t) (get c.until (tenant_key account id))

-- What is open after a failure at the key itself.
reopened :
    (t started : ℕ) (old : Option CooldownEntry) (e : CooldownEntry)
    → started ≤ t
    → sift (live_at t) (
        if outlasts (sift (live_at started) old) e.until
        then sift (live_at started) old
        else some e)
      ≡ (if ltb t e.until then some (longer (sift (live_at t) old) e) else sift (live_at t) old)
reopened t started none e h = ground arith
reopened t started (some w) e h = ground (arith, h)

sifted_twice :
    (t now : ℕ) (old : Option CooldownEntry)
    → now ≤ t
    → sift (live_at t) (sift (live_at now) old) ≡ sift (live_at t) old
sifted_twice t now none h = refl
sifted_twice t now (some w) h = ground (arith, h)

sift-sift :
    (p q : CooldownEntry → Bool) (old : Option CooldownEntry)
    → sift p (sift q old) ≡ sift q (sift p old)
sift-sift p q none = refl
sift-sift p q (some w) = ground arith

is_open-sift :
    (t : ℕ) (old : Option CooldownEntry) → still_open t old ≡ is_open (sift (live_at t) old)
is_open-sift t none = refl
is_open-sift t (some w) = ground arith

module _ (account id : String) (t : ℕ) (free : nul_free account ≡ true) where
  window-set :
      (c : CooldownStore) (a : String) (e : CooldownEntry)
      → WellFormed c
      → nul_free a ≡ true
      → e.started_at ≤ t
      → window (set c a e) account id t
        ≡ expect_call account id t (window c account id t) (opened a e)
  unfolding set expect_call
  window-set c a e w p h =
      let key = tenant_key a e.provider_model_id in
      let key' = tenant_key account id in
      let test = λ (_ : String) (x : CooldownEntry). ltb e.started_at x.until in
      ground (
        arith,
        get-keep test c.until key w.distinct,
        get-keep test c.until key' w.distinct,
        eq_iff key key',
        get-put (keep test c.until) key key' e,
        tenant_key_eq a account e.provider_model_id id p free,
        reopened t e.started_at (get c.until key') e h,
        sifted_twice t e.started_at (get c.until key') h,
      )

  window-clear_for :
      (c : CooldownStore) (a : String)
      → WellFormed c
      → nul_free a ≡ true
      → window (clear_for c a) account id t
        ≡ expect_call account id t (window c account id t) (cleared a)
  unfolding clear_for expect_call
  window-clear_for c a w p =
      let key = tenant_key account id in
      let test = λ (k : String) (_ : CooldownEntry). not (has_prefix k (tenant_prefix a)) in
      rw (get-keep test c.until key w.distinct) (
        rw (prefix-tenant_key account a id free p)
          (cleared_out (str_eq account a) (get c.until key)))
    where
      cleared_out :
          (b : Bool) (old : Option CooldownEntry)
          → sift (live_at t) (sift (λ _. not b) old) ≡ (if b then none else sift (live_at t) old)
      cleared_out true none = refl
      cleared_out true (some x) = refl
      cleared_out false none = refl
      cleared_out false (some x) = refl

  window-remove :
      (c : CooldownStore) (a i : String)
      → nul_free a ≡ true
      → window (remove c a i) account id t
        ≡ expect_call account id t (window c account id t) (removed a i)
  unfolding remove expect_call
  window-remove c a i p = ground (
    arith,
    get-delete c.until (tenant_key a i) (tenant_key account id),
    tenant_key_eq a account i id p free,
  )

  window-remove_by_name :
      (c : CooldownStore) (a provider model : String)
      → WellFormed c
      → nul_free a ≡ true
      → window (remove_by_name c a provider model).0 account id t
        ≡ expect_call account id t (window c account id t) (released a provider model)
  unfolding remove_by_name same_names expect_call
  window-remove_by_name c a provider model w p =
      let key = tenant_key account id in
      let test = λ (k : String) (e : CooldownEntry). not (same_names a provider model k e) in
      rw (get-keep test c.until key w.distinct) (
        rw (prefix-tenant_key account a id free p) (
          sift-sift (live_at t) (λ e. not (bears (str_eq account a) provider model e))
            (get c.until key)))

  window-prune_expired :
      (c : CooldownStore) (now : ℕ)
      → WellFormed c
      → now ≤ t
      → window (prune_expired c now) account id t ≡ window c account id t
  unfolding prune_expired
  window-prune_expired c now w h =
      let key = tenant_key account id in
      rw (get-keep (λ _ e. live_at now e) c.until key w.distinct)
        (sifted_twice t now (get c.until key) h)

  window-apply :
      (c : CooldownStore) (call : Call)
      → WellFormed c
      → Admissible t call
      → window (apply c call) account id t ≡ expect_call account id t (window c account id t) call
  unfolding apply expect_call
  window-apply c (opened a e) w p = window-set c a e w p.0 p.1
  window-apply c (cleared a) w p = window-clear_for c a w p
  window-apply c (removed a i) w p = window-remove c a i p
  window-apply c (released a provider model) w p = window-remove_by_name c a provider model w p
  window-apply c (pruned now) w p = window-prune_expired c now w p

  window-run :
      (c : CooldownStore) (calls : List Call)
      → WellFormed c
      → AllAdmissible t calls
      → window (run c calls) account id t ≡ expect account id t (window c account id t) calls
  unfolding run expect
  window-run c [] w p = refl
  window-run c (call ∷ calls) w p =
      window-run (apply c call) calls (WellFormed-apply c t call p.0 w) p.1
      ∙ ap (λ o. expect account id t o calls) (window-apply c call w p.0)

-- From an empty store, after any calls at times up to t, with accounts without NUL: a target is cooling at t
-- exactly if the calls alone, by `expect`, leave it a window that is open at t: a failure opens one, or
-- replaces the open one by one that does not end earlier, and only a removal of the target, a clearing of the
-- account or a release by the names that the open window bears closes it early.
pub cooled-run :
    (account id : String) (t : ℕ) (calls : List Call)
    → nul_free account ≡ true
    → AllAdmissible t calls
    → cooled (run new_cooldown_store calls) account id t ≡ is_open (expect account id t none calls)
unfolding cooled new_cooldown_store get
cooled-run account id t calls free p =
    is_open-sift t _
    ∙ ap is_open (window-run account id t free new_cooldown_store calls WellFormed-new p)

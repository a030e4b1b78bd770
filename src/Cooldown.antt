-- ===== src/Cooldown.antt =====
-- internal/server/cooldown.go: the fallback cooldowns, kept per account and target.
-- A `time.Time` is a number of nanoseconds. Each method takes the clock that the source passes it.
pub mod Windows
mod Handlers
mod Examples
pub mod WellFormed
pub mod Status
mod Release
mod Snapshot
mod History
use tiller_router.Prelude.{
  ℕ, String, str_eq, Bool, true, false, not, ◌&&◌, ◌||◌, Option, none, some, [], ◌∷◌, ltb, ◌==◌,
  if◌then◌else◌,
}
use tiller_router.Prelude.Text.{has_prefix}
use tiller_router.Prelude.TextOrder.{text_lt}
use tiller_router.Prelude.Table.{Table, get, put, delete, keep}
use tiller_router.Tenant.{tenant_key, tenant_prefix}

pub record CooldownEntry : Type 0 where
  pub provider_model_id : String
  pub until : ℕ
  pub started_at : ℕ
  pub provider : String
  pub model : String
  pub origin_request_log_id : String
  pub origin_error_class : String
  pub origin_error_message : String

pub record CooldownStore : Type 0 where
  pub until : Table CooldownEntry

unfoldable pub new_cooldown_store : CooldownStore
new_cooldown_store = record { until = [] }

-- now.Before(e.until)
abbrev pub live_at : ℕ → CooldownEntry → Bool
live_at now e = ltb now e.until

abbrev pub still_open : ℕ → Option CooldownEntry → Bool
still_open now none = false
still_open now (some e) = live_at now e

unfoldable pub cooled : CooldownStore → String → String → ℕ → Bool
cooled c account id now = still_open now (get c.until (tenant_key account id))

unfoldable pub prune_expired : CooldownStore → ℕ → CooldownStore
prune_expired c now = record { until = keep (λ _ e. live_at now e) c.until }

-- existing.until.After(until)
abbrev pub outlasts : Option CooldownEntry → ℕ → Bool
outlasts none until = false
outlasts (some existing) until = ltb until existing.until

-- The arguments of `set` behind the account are the fields of the entry that it writes.
unfoldable pub set : CooldownStore → String → CooldownEntry → CooldownStore
unfolding prune_expired
set c account e =
    let pruned = prune_expired c e.started_at in
    let key = tenant_key account e.provider_model_id in
    if outlasts (get pruned.until key) e.until
    then pruned
    else record { until = put pruned.until key e }

-- The entries that `statusByName` does not pass over.
unfoldable pub named : String → String → String → ℕ → String → CooldownEntry → Bool
named account provider model now key e =
    has_prefix key (tenant_prefix account)
    && str_eq e.provider provider
    && str_eq e.model model
    && ltb now e.until

-- e.until.Before(best.until) || (e.until.Equal(best.until) && e.providerModelID < best.providerModelID)
unfoldable pub sooner : CooldownEntry → CooldownEntry → Bool
sooner e best =
    ltb e.until best.until
    || (e.until == best.until && text_lt e.provider_model_id best.provider_model_id)

-- `best` and `found` of the loop, as an option.
unfoldable pub better : Option CooldownEntry → CooldownEntry → Option CooldownEntry
unfolding sooner
better none e = some e
better (some best) e = if sooner e best then some e else some best

unfoldable pub scan_named :
    (String → CooldownEntry → Bool)
    → Option CooldownEntry
    → Table CooldownEntry
    → Option CooldownEntry
unfolding better
scan_named p best [] = best
scan_named p best ((key, e) ∷ m) = scan_named p (if p key e then better best e else best) m

unfoldable pub status_by_name : CooldownStore → String → String → String → ℕ → Option CooldownEntry
unfolding scan_named named
status_by_name c account provider model now =
    scan_named (named account provider model now) none c.until

unfoldable pub clear_for : CooldownStore → String → CooldownStore
clear_for c account = record {
  until = keep (λ key _. not (has_prefix key (tenant_prefix account))) c.until;
}

unfoldable pub remove : CooldownStore → String → String → CooldownStore
remove c account id = record { until = delete c.until (tenant_key account id) }

-- The entries that `removeByName` deletes: expired ones too.
unfoldable pub same_names : String → String → String → String → CooldownEntry → Bool
same_names account provider model key e =
    has_prefix key (tenant_prefix account) && str_eq e.provider provider && str_eq e.model model

unfoldable pub any_entry : (String → CooldownEntry → Bool) → Table CooldownEntry → Bool
any_entry p [] = false
any_entry p ((key, e) ∷ m) = p key e || any_entry p m

-- The store after the deletions, and `removed`.
unfoldable pub remove_by_name : CooldownStore → String → String → String → CooldownStore × Bool
unfolding same_names any_entry
remove_by_name c account provider model =
    let hit = same_names account provider model in
    (record { until = keep (λ key e. not (hit key e)) c.until }, any_entry hit c.until)

pub record CooldownView : Type 0 where
  pub provider_model_id : String
  pub provider : String
  pub model : String
  pub until_at : String
  pub origin_error_class : String
  pub origin_error_message : String

-- `format` is `time.Time.Format` at RFC3339Nano.
unfoldable pub view_of : (ℕ → String) → CooldownEntry → CooldownView
view_of format e = record {
  provider_model_id = e.provider_model_id;
  provider = e.provider;
  model = e.model;
  until_at = format e.until;
  origin_error_class = e.origin_error_class;
  origin_error_message = e.origin_error_message;
}

unfoldable pub snapshot_from :
    (ℕ → String) → String → ℕ → Table CooldownEntry → Table CooldownView → Table CooldownView
unfolding view_of
snapshot_from format account now [] out = out
snapshot_from format account now ((key, e) ∷ m) out = snapshot_from format account now m (
    if has_prefix key (tenant_prefix account) && ltb now e.until
    then put out e.provider_model_id (view_of format e)
    else out)

-- The store after pruning, and the copy.
unfoldable pub snapshot :
    (ℕ → String) → CooldownStore → String → ℕ → CooldownStore × Table CooldownView
unfolding prune_expired snapshot_from
snapshot format c account now =
    let pruned = prune_expired c now in (pruned, snapshot_from format account now pruned.until [])

-- ===== src/Auth/Tokens.antt =====
-- internal/auth/api_tokens.go: verification of management tokens, with its cache and its revision counter.
-- `AuthenticateContext` holds the mutex twice, so it is three operations: `lookup` (the cached answer),
-- `begin_verification` (a slot and the revision), and `publish` (the second critical section); between them
-- `verify_row` judges the row that was read. A time is a number of nanoseconds, 0 the zero time.
mod Cache
mod Granted
mod Slots
mod Race
mod Examples
use tiller_router.Prelude.{
  ℕ, zero, suc, ◌+◌, ◌-◌, ◌*◌, ◌%◌, String, str_eq, Bool, true, false, not, ◌&&◌, ◌||◌, Option,
  none, some, List, [], ◌∷◌, ltb, leb, ◌==◌, if◌then◌else◌, length,
}
use tiller_router.Prelude.Int.{ℤ}
use tiller_router.Prelude.Table.{Table, get, put, delete, keep}

pub record Identity : Type 0 where
  pub id : String
  pub account_id : String
  pub account_status : String
  pub name : String
  pub enabled : Bool
  pub scopes : Table ℤ
  pub expires_at : ℕ

pub record CacheEntry : Type 0 where
  pub identity : Identity
  pub expires : ℕ

-- `verifying` counts the slots of `sem` that are taken. The key and the store are parameters of what
-- uses them.
pub record Authenticator : Type 0 where
  pub ttl : ℕ
  pub entries : Table CacheEntry
  pub max_entries : ℕ
  pub verifying : ℕ
  pub rev : ℕ

abbrev pub slots : ℕ
slots = 4

-- store.ManagementTokenAuthRow; `expires_at` is none where the column is null.
pub record TokenRow : Type 0 where
  pub id : String
  pub account_id : String
  pub account_status : String
  pub name : String
  pub enabled : Bool
  pub secret_hash : String
  pub scopes : String
  pub expires_at : Option String

-- now ≥ expires_at, where one is set
abbrev pub expired_at : ℕ → Identity → Bool
expired_at now i = not (i.expires_at == 0) && not (ltb now i.expires_at)

pub data Lookup : Type 0 where
  hit : Identity → Lookup
  token_expired miss : Lookup

-- The first critical section, at what the map holds under the key.
unfoldable pub lookup_at : Authenticator → String → ℕ → Option CacheEntry → Authenticator × Lookup
lookup_at a key now none = (a, miss)
lookup_at a key now (some entry) =
    if ltb now entry.expires
    then (if expired_at now entry.identity
        then (record a { entries = delete a.entries key }, token_expired)
        else (
          record a { entries = put a.entries key (record entry { expires = now + a.ttl }) },
          hit entry.identity,
        ))
    else (record a { entries = delete a.entries key }, miss)

unfoldable pub lookup : Authenticator → String → ℕ → Authenticator × Lookup
unfolding lookup_at
lookup a key now = lookup_at a key now (get a.entries key)

-- The select: a free slot or an answer of unavailable. `cancelled` is the choice of an ended request
-- context where a slot is free too. The revision is read with the slot taken.
unfoldable pub begin_verification : Authenticator → Bool → Authenticator × Option ℕ
begin_verification a cancelled =
    if cancelled || leb slots a.verifying
    then (a, none)
    else (record a { verifying = a.verifying + 1 }, some a.rev)

-- The deferred release of the slot.
abbrev pub release_slot : Authenticator → Authenticator
release_slot a = record a { verifying = a.verifying - 1 }

-- `parse_scopes` is ParseManagementScopes, `parse_time` is time.Parse and `verify` the hasher's Verify.
module _ (parse_scopes : String → Table ℤ) (parse_time : String → Option ℕ)
    (verify : String → String → Bool) where
  abbrev pub expiry_of : Option String → ℕ
  expiry_of none = 0
  expiry_of (some text) = elim (parse_time text) [
    | none ↦ 0
    | some t ↦ if str_eq text "" then 0 else t
  ]

  abbrev pub identity_of : TokenRow → Identity
  identity_of row = record {
    id = row.id;
    account_id = row.account_id;
    account_status = row.account_status;
    name = row.name;
    enabled = row.enabled;
    scopes = parse_scopes row.scopes;
    expires_at = expiry_of row.expires_at;
  }

  -- The judgement of the row under the selector; `none` is ErrManagementTokenInvalid.
  unfoldable pub verify_row : String → Option TokenRow → Option Identity
  verify_row secret none = none
  verify_row secret (some row) =
      if not row.enabled
        || not (str_eq row.account_status "active")
        || not (verify secret row.secret_hash)
      then none
      else some (identity_of row)

-- The loop that drops what has expired.
unfoldable pub sweep_expired : Authenticator → ℕ → Authenticator
sweep_expired a now = record a { entries = keep (λ _ e. ltb now e.expires) a.entries }

-- Deletes of the first entry until there is room.
unfoldable pub drop_to : ℕ → Table CacheEntry → Table CacheEntry
drop_to bound [] = []
drop_to bound ((k, e) ∷ m) =
    let rest = drop_to bound m in if leb bound (length m + 1) then rest else (k, e) ∷ m

unfoldable pub ensure_cache_room : Authenticator → ℕ → Authenticator
unfolding drop_to
ensure_cache_room a now =
    let swept = sweep_expired a now in
    if ltb (length a.entries) a.max_entries
    then a
    else record swept { entries = drop_to a.max_entries swept.entries }

pub data Outcome : Type 0 where
  granted : Identity → Outcome
  invalid expired : Outcome

-- The second critical section: the grant, unless a mutation has come since the revision was read.
unfoldable pub publish_locked : Authenticator → String → ℕ → ℕ → Identity → Authenticator × Outcome
publish_locked a key generation now i =
    let room = ensure_cache_room a now in
    if not (a.rev == generation) then (a, invalid) else (
      record room {
        entries = put room.entries key (record { identity = i; expires = now + a.ttl });
      },
      granted i,
    )

-- From the judgement on: the expiry, the second critical section, and the release of the slot.
unfoldable pub publish : Authenticator → String → ℕ → ℕ → Option Identity → Authenticator × Outcome
unfolding publish_locked
publish a key generation now none = (release_slot a, invalid)
publish a key generation now (some i) =
    let (a', outcome) = publish_locked a key generation now i in
    if expired_at now i then (release_slot a, expired) else (release_slot a', outcome)

-- rev is a uint64.
abbrev pub next_rev : ℕ → ℕ
next_rev rev = (rev + 1) % 18446744073709551616

unfoldable pub invalidate : Authenticator → String → Authenticator
invalidate a id = record a {
  rev = next_rev a.rev;
  entries = keep (λ _ e. not (str_eq e.identity.id id)) a.entries;
}

-- `published` is whether the callback returned no error.
unfoldable pub invalidate_with : Authenticator → String → Bool → Authenticator
invalidate_with a id published = if published then invalidate a id else a

unfoldable pub invalidate_all : Authenticator → Authenticator
invalidate_all a = record a { rev = next_rev a.rev; entries = [] }

-- ===== src/Auth/Tokens/Granted.antt =====
-- The authenticator, the store and the verifications in flight, in any interleaving. A change of a token
-- (`InvalidateWith`) is two steps, the write and the invalidation, and the verifications run between
-- them too; so is revoke-all, whose write is outside the lock.
mod Faithful
pub mod Fresh
use mathlib.Core.List.{Memᴰ}
use mathlib.Core.Path.{subst}
use tiller_router.Prelude.{
  ℕ, zero, suc, ◌+◌, ◌-◌, ◌≤◌, ◌<◌, ◌%◌, String, str_eq, eq_iff, ◌≡◌, ◌≢◌, refl, ap, sym, ◌∙◌, Bool,
  true, false, not, ◌&&◌, ◌||◌, Option, none, some, List, [], ◌∷◌, ltb, leb, ◌==◌, if◌then◌else◌,
  length, arith, Bool-cases, Option-cases, inl, inr, sift,
}
use tiller_router.Prelude.Int.{ℤ}
use tiller_router.Prelude.Table.{
  Table, get, put, delete, keep, Distinct, get-put, get-delete, get-keep, Distinct-put,
  Distinct-delete, Distinct-keep,
}
use tiller_router.Auth.KeyText.{KeyCodec, parse_management_token}
use tiller_router.Auth.Tokens.{
  Identity, CacheEntry, Authenticator, TokenRow, verify_row, lookup_at, lookup, Lookup, hit,
  token_expired, miss, begin_verification, release_slot, sweep_expired, drop_to, ensure_cache_room,
  Outcome, granted, invalid, expired, expired_at, publish_locked, publish, next_rev, invalidate,
  invalidate_with, invalidate_all,
}
use tiller_router.Auth.Tokens.Cache.{
  Within, keep-Within, lookup-Within, Distinct-lookup, ensure_cache_room-Within,
  Distinct-ensure_cache_room,
}
use tiller_router.Auth.Tokens.Slots.{new_authenticator}
use tiller_router.Auth.Tokens.Race.{rev-lookup, rev-publish, modulus}

-- The libraries and the store that the authenticator calls: the JSON and time parsers, the hasher's
-- Verify, the HMAC of a raw token, and the query for a selector.
pub record Backend : Type 1 where
  pub codec : KeyCodec
  pub parse_scopes : String → Table ℤ
  pub parse_time : String → Option ℕ
  pub verify : String → String → Bool
  pub cache_key : String → String
  pub Db : Type 0
  pub row_by_selector : Db → String → Option TokenRow

pub data Window : Type 0 where
  steady changing_all : Window
  changing : String → Window

module _ (b : Backend) where
  abbrev fresh_at : b.Db → Option (String × String) → Option Identity
  fresh_at db none = none
  fresh_at db (some (selector, secret)) =
      verify_row b.parse_scopes b.parse_time b.verify secret (b.row_by_selector db selector)

  -- What a verification of the raw token finds in the store.
  unfoldable pub fresh : b.Db → String → Option Identity
  fresh db raw = fresh_at db (parse_management_token b.codec raw)

  pub record System : Type 0 where
    pub auth : Authenticator
    pub db : b.Db
    pub window : Window
    pub begun : List (String × ℕ)
    pub judged : List (String × ℕ × Identity)

  -- The write keeps what a verification finds of the other tokens.
  abbrev pub OnlyOf : String → b.Db → b.Db → Type 0
  OnlyOf id db db' =
      (raw : String) (i : Identity) → fresh db raw ≡ some i → i.id ≢ id → fresh db' raw ≡ some i

  pub data Event : Type 0 where
    looks_up : String → ℕ → Event
    begins : String → Bool → ℕ → Event
    reads : String → ℕ → Identity → Event
    refuses : String → ℕ → ℕ → Event
    publishes : String → ℕ → ℕ → Identity → Event
    sweeps : ℕ → Event
    writes : String → b.Db → Event
    invalidates write_fails : String → Event
    revokes : b.Db → Event
    invalidates_all : Event

  -- When the event can happen.
  abbrev pub Enabled : System → Event → Type 0
  Enabled s (looks_up raw now) = Unit
  Enabled s (begins raw cancelled generation) =
      (begin_verification s.auth cancelled).1 ≡ some generation
  Enabled s (reads raw generation i) = Memᴰ (raw, generation) s.begun × (fresh s.db raw ≡ some i)
  Enabled s (refuses raw generation now) = Memᴰ (raw, generation) s.begun
  Enabled s (publishes raw generation now i) = Memᴰ (raw, generation, i) s.judged
  Enabled s (sweeps now) = Unit
  Enabled s (writes id db') = (s.window ≡ steady) × OnlyOf id s.db db'
  Enabled s (invalidates id) = s.window ≡ changing id
  Enabled s (write_fails id) = s.window ≡ steady
  Enabled s (revokes db') = s.window ≡ steady
  Enabled s invalidates_all = s.window ≡ changing_all

  unfoldable pub after : System → Event → System
  after s (looks_up raw now) = record s { auth = (lookup s.auth (b.cache_key raw) now).0 }
  after s (begins raw cancelled generation) = record s {
    auth = (begin_verification s.auth cancelled).0;
    begun = (raw, generation) ∷ s.begun;
  }
  after s (reads raw generation i) = record s { judged = (raw, generation, i) ∷ s.judged }
  after s (refuses raw generation now) = record s {
    auth = (publish s.auth (b.cache_key raw) generation now none).0;
  }
  after s (publishes raw generation now i) = record s {
    auth = (publish s.auth (b.cache_key raw) generation now (some i)).0;
  }
  after s (sweeps now) = record s { auth = sweep_expired s.auth now }
  after s (writes id db') = record s { db = db'; window = changing id }
  after s (invalidates id) = record s { auth = invalidate_with s.auth id true; window = steady }
  after s (write_fails id) = record s { auth = invalidate_with s.auth id false }
  after s (revokes db') = record s { db = db'; window = changing_all }
  after s invalidates_all = record s { auth = invalidate_all s.auth; window = steady }

  unfoldable pub run : System → List Event → System
  run s [] = s
  run s (event ∷ events) = run (after s event) events

  abbrev pub AllEnabled : System → List Event → Type 0
  AllEnabled s [] = Unit
  AllEnabled s (event ∷ events) = Enabled s event × AllEnabled (after s event) events

  -- An empty cache, and no verification in flight.
  abbrev pub new_system : ℕ → ℕ → b.Db → System
  new_system ttl bound db = record {
    auth = new_authenticator ttl bound;
    db = db;
    window = steady;
    begun = [];
    judged = [];
  }

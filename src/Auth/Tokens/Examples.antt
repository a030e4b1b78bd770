-- ===== src/Auth/Tokens/Examples.antt =====
-- The theorems of the management tokens at a token whose scopes are narrowed while it is in use.
use mathlib.Core.List.Memᴰ.{head}
use tiller_router.Prelude.{
  ◌≤◌, String, str_eq, ◌≡◌, refl, true, false, none, some, List, [], ◌∷◌, if◌then◌else◌, length,
  arith, Option-cases, inl, inr,
}
use tiller_router.Prelude.Text.{has_prefix, cut_prefix}
use tiller_router.Prelude.Int.{pos}
use tiller_router.Prelude.Table.{get, put, keep}
use tiller_router.Auth.KeyText.{parse_management_token, parse_key_with_prefix}
use tiller_router.Auth.Tokens.{
  Identity, Authenticator, slots, verify_row, lookup, begin_verification, release_slot,
  sweep_expired, drop_to, ensure_cache_room, expired_at, publish_locked, publish, invalidate,
  invalidate_with,
}
use tiller_router.Auth.Tokens.Slots.{
  Call, looked_up, begun, published, swept, mutated, run, new_authenticator, run-entries_le_max,
}
use tiller_router.Auth.Tokens.Race.{raises, mutations, publish-overtaken, refusal}
use tiller_router.Auth.Tokens.Granted.{
  Backend, steady, fresh, OnlyOf, Event, AllEnabled, after, new_system, looks_up, begins, reads,
  refuses, publishes, sweeps, writes, invalidates,
}
use tiller_router.Auth.Tokens.Granted as System
use tiller_router.Auth.Tokens.Granted.Fresh.{lookup-hit_is_fresh, publish-granted_is_fresh}

-- The part after the prefix is the secret; a scope text is the name of an area, read-write.
abbrev backend : Backend
backend = record {
  codec = record {
    split_dots = λ s. "selector" ∷ s ∷ [];
    byte_length = λ s. if str_eq s "selector" then 12 else 43;
    decoded_length = λ s. some 32;
  };
  parse_scopes = λ s. (s, pos 2) ∷ [];
  parse_time = λ s. none;
  verify = λ secret hash. str_eq secret hash;
  cache_key = λ raw. raw;
  Db = String;
  row_by_selector = λ db selector. some (record {
    id = "t1";
    account_id = "acc";
    account_status = "active";
    name = "ci";
    enabled = true;
    secret_hash = "secret";
    scopes = db;
    expires_at = none;
  });
}

abbrev token_with : String → Identity
token_with area = record {
  id = "t1";
  account_id = "acc";
  account_status = "active";
  name = "ci";
  enabled = true;
  scopes = (area, pos 2) ∷ [];
  expires_at = 0;
}

abbrev raw : String
raw = "mt-tr-secret"

-- The second verification reads before the change and ends after it.
abbrev events : List (Event backend)
events =
    begins raw false 0
    ∷ reads raw 0 (token_with "settings")
    ∷ publishes raw 0 1 (token_with "settings")
    ∷ looks_up raw 2
    ∷ begins raw false 0
    ∷ reads raw 0 (token_with "settings")
    ∷ writes "t1" "monitoring"
    ∷ looks_up raw 3
    ∷ invalidates "t1"
    ∷ publishes raw 0 4 (token_with "settings")
    ∷ begins raw false 1
    ∷ reads raw 1 (token_with "monitoring")
    ∷ publishes raw 1 5 (token_with "monitoring")
    ∷ []

only_one_token : OnlyOf backend "t1" "settings" "monitoring"
unfolding fresh verify_row
only_one_token key i h other = elim (Option-cases (parse_management_token backend.codec key)) [
  | inl malformed ↦ absurd (ground (arith, h, malformed))
  | inr (parts, parsed) ↦ absurd (ground (arith, h, parsed, other))
]

events-AllEnabled : AllEnabled backend (new_system backend 10 2 "settings") events
unfolding after fresh verify_row parse_management_token parse_key_with_prefix has_prefix cut_prefix
    lookup begin_verification publish publish_locked ensure_cache_room drop_to sweep_expired get put
    keep invalidate invalidate_with
events-AllEnabled = (
  refl,
  (
    (head refl, refl),
    (
      head refl,
      (
        tt,
        (
          refl,
          (
            (head refl, refl),
            (
              (refl, only_one_token),
              (tt, (refl, (head refl, (refl, ((head refl, refl), (head refl, tt)))))),
            ),
          ),
        ),
      ),
    ),
  ),
)

same_key : (x y : String) → backend.cache_key x ≡ backend.cache_key y → x ≡ y
same_key x y h = h

-- The last look-up is answered from the cache, with the narrowed scopes.
lookup-hit_is_fresh_example :
    (fresh backend (System.run backend (new_system backend 10 2 "settings") events).db raw
      ≡ some (token_with "monitoring"))
    × (expired_at 6 (token_with "monitoring") ≡ false)
unfolding System.run after fresh verify_row parse_management_token parse_key_with_prefix has_prefix
    cut_prefix lookup begin_verification publish publish_locked ensure_cache_room drop_to
    sweep_expired get put keep invalidate invalidate_with
lookup-hit_is_fresh_example =
    lookup-hit_is_fresh backend same_key 10 2 "settings" events (omega arith) events-AllEnabled refl
      raw 6 (token_with "monitoring") refl

publish-granted_is_fresh_example :
    (fresh backend (System.run backend (new_system backend 10 2 "settings") events).db raw
      ≡ some (token_with "monitoring"))
    × (expired_at 6 (token_with "monitoring") ≡ false)
unfolding System.run after fresh verify_row parse_management_token parse_key_with_prefix has_prefix
    cut_prefix lookup begin_verification publish publish_locked ensure_cache_room drop_to
    sweep_expired get put keep invalidate invalidate_with
publish-granted_is_fresh_example =
    publish-granted_is_fresh backend same_key 10 2 "settings" events (omega arith) events-AllEnabled
      refl raw 1 6 (token_with "monitoring") (token_with "monitoring") (head refl) refl

abbrev warm : Authenticator
warm = new_authenticator 10 2

abbrev calls : List Call
calls =
    looked_up "k" 1
    ∷ mutated "t1" true
    ∷ begun false
    ∷ published "k" 1 2 (some (token_with "settings"))
    ∷ swept 3
    ∷ []

publish-overtaken_example :
    publish (run (begin_verification warm false).0 calls) "k" 0 4 (some (token_with "settings")) ≡ (
      release_slot (run (begin_verification warm false).0 calls),
      refusal 4 (some (token_with "settings")),
    )
unfolding raises mutations begin_verification
publish-overtaken_example =
    publish-overtaken warm calls 0 "k" 4 (some (token_with "settings")) (omega arith) refl
      (omega arith) (omega arith)

run-entries_le_max_example :
    (length (run (new_authenticator 10 2) calls).entries ≤ 2)
    × ((run (new_authenticator 10 2) calls).verifying ≤ slots)
run-entries_le_max_example = run-entries_le_max 10 2 calls (omega arith)

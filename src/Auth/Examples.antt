-- ===== src/Auth/Examples.antt =====
-- The theorems of the keys and scopes at a token with two scopes.
use tiller_router.Prelude.{str_eq, some, [], ◌∷◌, if◌then◌else◌}
use tiller_router.Prelude.Int.{ℤ, pos}
use tiller_router.Prelude.Table.{Table}
use tiller_router.Auth.KeyText.{KeyCodec}

abbrev codec : KeyCodec
codec = record {
  split_dots = λ s. "selector" ∷ s ∷ [];
  byte_length = λ s. if str_eq s "selector" then 12 else 43;
  decoded_length = λ s. some 32;
}

abbrev scopes : Table ℤ
scopes = ("virtual", pos 2) ∷ ("settings", pos 1) ∷ []

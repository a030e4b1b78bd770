-- ===== src/Auth/KeyText.antt =====
-- internal/auth/keys.go: the shape that client keys and management tokens share (`parseKeyWithPrefix`).
use mathlib.Core.Path.{subst}
use Prim.Native.String.{[] as empty, ◌∷◌ as ◌+∷◌}
use tiller_router.Prelude.{
  ℕ, String, ◌≡◌, ap₂, Option-cases, sym, Bool, true, false, ◌&&◌, Option, none, some, List, [],
  ◌∷◌, ◌==◌, if◌then◌else◌, arith, Bool-cases, inl, inr,
}
use tiller_router.Prelude.Text.{has_prefix, cut_prefix, ◌+++◌, append-cut_prefix}

-- strings.Split at dots, len in bytes, and the length of what base64.RawURLEncoding decodes (`none` is an
-- error): library code, a parameter.
pub record KeyCodec : Type 0 where
  pub split_dots : String → List String
  pub byte_length : String → ℕ
  pub decoded_length : String → Option ℕ

abbrev pub management_token_prefix : String
management_token_prefix = "mt-tr-"

abbrev pub client_key_prefix : String
client_key_prefix = "sk-tr-"

module _ (codec : KeyCodec) where
  open codec use {split_dots, byte_length, decoded_length}

  abbrev pub decodes : String → Bool
  decodes s = elim (decoded_length s) [ none ↦ false | some n ↦ true ]

  abbrev pub decodes_to : ℕ → String → Bool
  decodes_to size s = elim (decoded_length s) [ none ↦ false | some n ↦ n == size ]

  abbrev pub well_formed : String → String → Bool
  well_formed selector secret =
      (byte_length selector == 12)
      && (byte_length secret == 43)
      && decodes selector
      && decodes_to 32 secret

  abbrev pub key_parts : List String → Option (String × String)
  key_parts [] = none
  key_parts (selector ∷ []) = none
  key_parts (selector ∷ secret ∷ []) =
      if well_formed selector secret then some (selector, secret) else none
  key_parts (selector ∷ secret ∷ more ∷ rest) = none

  unfoldable pub parse_key_with_prefix : String → String → Option (String × String)
  parse_key_with_prefix key prefix =
      if has_prefix key prefix then key_parts (split_dots (cut_prefix key prefix)) else none

  unfoldable pub parse_key : String → Option (String × String)
  parse_key key = parse_key_with_prefix key client_key_prefix

  unfoldable pub parse_management_token : String → Option (String × String)
  parse_management_token key = parse_key_with_prefix key management_token_prefix

distinct_prefixes :
    (key : String)
    → has_prefix key client_key_prefix ≡ true
    → has_prefix key management_token_prefix ≡ false
unfolding has_prefix
distinct_prefixes empty h = absurd (cc)
distinct_prefixes (c +∷ s) h = ground (arith, h)

-- The two credential families never parse as each other: a key that parses as a client key does not parse
-- as a management token, and the other way round.
pub parse_families_disjoint :
    (codec : KeyCodec) (key : String) (parts : String × String)
    → (parse_key codec key ≡ some parts → parse_management_token codec key ≡ none)
      × (parse_management_token codec key ≡ some parts → parse_key codec key ≡ none)
unfolding parse_key parse_management_token parse_key_with_prefix
parse_families_disjoint codec key parts =
    let apart = distinct_prefixes key in
    elim (Bool-cases (has_prefix key client_key_prefix)) [
      | inl client ↦
          (λ h. ground (arith, apart, client), λ h. absurd (ground (arith, h, apart, client)))
      | inr other ↦ (λ h. absurd (ground (arith, h, other)), λ h. ground (arith, other))
    ]

key_parts-shape :
    (codec : KeyCodec) (parts : List String) (selector secret : String)
    → key_parts codec parts ≡ some (selector, secret)
    → (parts ≡ selector ∷ secret ∷ [])
      × (codec.byte_length selector ≡ 12)
      × (codec.byte_length secret ≡ 43)
      × (codec.decoded_length secret ≡ some 32)
key_parts-shape codec [] selector secret h = absurd (cc)
key_parts-shape codec (a ∷ []) selector secret h = absurd (cc)
key_parts-shape codec (a ∷ c ∷ d ∷ rest) selector secret h = absurd (cc)
key_parts-shape codec (a ∷ c ∷ []) selector secret h =
    let first : a ≡ selector = ground (arith, h) in
    let second : c ≡ secret = ground (arith, h) in
    let good : well_formed codec a c ≡ true = ground (arith, h) in
    let good' : well_formed codec selector secret ≡ true =
      subst (λ (x : String). well_formed codec x secret ≡ true) first
        (subst (λ (y : String). well_formed codec a y ≡ true) second good) in
    (
      ap₂ (λ (x y : String). x ∷ y ∷ []) first second,
      ground (arith, good'),
      ground (arith, good'),
      ground (arith, good', Option-cases (codec.decoded_length secret)),
    )

-- What parses is the prefix followed by a text whose two parts are the selector, of 12 bytes, and the
-- secret, of 43 bytes that decode to 32.
pub parse_key_with_prefix-shape :
    (codec : KeyCodec) (key prefix selector secret : String)
    → parse_key_with_prefix codec key prefix ≡ some (selector, secret)
    → (key ≡ prefix +++ cut_prefix key prefix)
      × (codec.split_dots (cut_prefix key prefix) ≡ selector ∷ secret ∷ [])
      × (codec.byte_length selector ≡ 12)
      × (codec.byte_length secret ≡ 43)
      × (codec.decoded_length secret ≡ some 32)
unfolding parse_key_with_prefix
parse_key_with_prefix-shape codec key prefix selector secret h =
    elim (Bool-cases (has_prefix key prefix)) [
      | inl mine ↦
          let shape =
            key_parts-shape codec (codec.split_dots (cut_prefix key prefix)) selector secret
              (ground (arith, h, mine)) in
          (sym (append-cut_prefix key prefix mine), shape.0, shape.1, shape.2, shape.3)
      | inr other ↦ absurd (ground (arith, h, other))
    ]

-- ===== src/UpstreamError/Unwrap.antt =====
-- What unwrapping an error envelope keeps, and how long what is told can be.
use mathlib.Core.Path.{subst, ap}
use tiller_router.Prelude.{
  ℕ, zero, suc, ◌≤◌, String, str_eq, ◌≡◌, ◌⊎◌, inl, inr, refl, Bool, true, false, not, Bool-cases,
  Option, none, some, [], ◌∷◌, arith,
}
use tiller_router.ErrorText.{
  ErrorDetail, Texts, runes, runes-sanitize_error_text, max_client_error_message_runes,
}
use tiller_router.UpstreamError.{
  first_non_empty, filled, peel, parse_error_envelope, or_stay, unwrap_from, unwrap_error_detail,
  sanitized, parse_upstream_error_detail,
}

-- Something besides white space.
abbrev pub visible : Texts → String → Bool
visible x s = not (str_eq (x.trim s) "")

-- The code, the parameter and the type of the first are not lost in the second.
abbrev pub Keeps : Texts → ErrorDetail → ErrorDetail → Type 0
Keeps x d e =
    (visible x d.code ≡ true → visible x e.code ≡ true)
    × (visible x d.param ≡ true → visible x e.param ≡ true)
    × (visible x d.class ≡ true → visible x e.class ≡ true)

-- The second is the first after a number of turns.
abbrev pub Peels : Texts → ℕ → ErrorDetail → ErrorDetail → Type 0
Peels x zero d f = d ≡ f
Peels x (suc n) d f = (e : ErrorDetail) × (peel x d ≡ some e) × Peels x n e f

-- No more than so many envelopes are peeled off, and none is left unless it is so many.
abbrev pub Settles : Texts → ℕ → ErrorDetail → ErrorDetail → Type 0
Settles x left d f = (n : ℕ) × (n ≤ left) × Peels x n d f × (n ≡ left ⊎ peel x f ≡ none)

first_non_empty-visible :
    (x : Texts) (inner outer : String)
    → visible x outer ≡ true
    → visible x (first_non_empty x (inner ∷ outer ∷ [])) ≡ true
unfolding first_non_empty
first_non_empty-visible x inner outer h = elim (Bool-cases (visible x inner)) [
  | inl e ↦ rw e e
  | inr e ↦ rw e (rw h h)
]

filled-Keeps : (x : Texts) (inner d : ErrorDetail) → Keeps x d (filled x inner d)
unfolding filled
filled-Keeps x inner d = (
  first_non_empty-visible x inner.code d.code,
  first_non_empty-visible x inner.param d.param,
  first_non_empty-visible x inner.class d.class,
)

peel-filled :
    (x : Texts) (d e : ErrorDetail)
    → peel x d ≡ some e
    → filled x (parse_error_envelope x d.message false) d ≡ e
unfolding peel
peel-filled x d e h = ground arith

peel-Keeps : (x : Texts) (d e : ErrorDetail) → peel x d ≡ some e → Keeps x d e
peel-Keeps x d e h =
    subst (Keeps x d) (peel-filled x d e h)
      (filled-Keeps x (parse_error_envelope x d.message false) d)

-- What holds of a turn on every inner detail holds with the turn before it.
Settles-or_stay :
    (x : Texts) (left : ℕ) (d : ErrorDetail) (next : Option ErrorDetail)
    → ((e : ErrorDetail)
        → Settles x left e (unwrap_from x left e) × Keeps x e (unwrap_from x left e))
    → peel x d ≡ next
    → Settles x (suc left) d (or_stay d (λ (e : ErrorDetail). unwrap_from x left e) next)
      × Keeps x d (or_stay d (λ (e : ErrorDetail). unwrap_from x left e) next)
Settles-or_stay x left d none rest e = ((0, omega arith, refl, inr e), (λ h. h, λ h. h, λ h. h))
Settles-or_stay x left d (some inner) rest e =
    let ((n, le, peels, ends), (code, param, class)) = rest inner in
    let (code', param', class') = peel-Keeps x d inner e in
    (
      (
        suc n,
        omega arith,
        (inner, e, peels),
        elim ends [ inl all ↦ inl (ap suc all) | inr stuck ↦ inr stuck ],
      ),
      (λ h. code (code' h), λ h. param (param' h), λ h. class (class' h)),
    )

Settles-unwrap_from :
    (x : Texts) (left : ℕ) (d : ErrorDetail)
    → Settles x left d (unwrap_from x left d) × Keeps x d (unwrap_from x left d)
unfolding unwrap_from
Settles-unwrap_from x zero d = ((0, omega arith, refl, inl refl), (λ h. h, λ h. h, λ h. h))
Settles-unwrap_from x (suc left) d =
    Settles-or_stay x left d (peel x d) (λ e. Settles-unwrap_from x left e) refl

-- An error envelope is unwrapped until it holds no other that can be told, but three times at most; and a
-- code, a parameter or a type with more than white space that the outermost envelope has is not lost: the
-- result has one too.
pub unwrap_error_detail-Settles :
    (x : Texts) (d : ErrorDetail)
    → Settles x 3 d (unwrap_error_detail x d) × Keeps x d (unwrap_error_detail x d)
unfolding unwrap_error_detail
unwrap_error_detail-Settles x d = Settles-unwrap_from x 3 d

-- Every text of it has at most so many runes.
abbrev pub Short : ErrorDetail → Type 0
Short d =
    (runes d.message ≤ max_client_error_message_runes)
    × (runes d.code ≤ max_client_error_message_runes)
    × (runes d.param ≤ max_client_error_message_runes)
    × (runes d.class ≤ max_client_error_message_runes)

-- If trimming does not lengthen a text, then whatever body a provider sends, each field of what is told of its
-- error has at most 2000 runes.
pub parse_upstream_error_detail-Short :
    (x : Texts) (body : String) (plain : Bool)
    → ((t : String) → runes (x.trim t) ≤ runes t)
    → Short (parse_upstream_error_detail x body plain)
unfolding parse_upstream_error_detail sanitized
parse_upstream_error_detail-Short x body plain shorter =
    let d = unwrap_error_detail x (parse_error_envelope x body plain) in
    (
      runes-sanitize_error_text x d.message shorter,
      runes-sanitize_error_text x d.code shorter,
      runes-sanitize_error_text x d.param shorter,
      runes-sanitize_error_text x d.class shorter,
    )

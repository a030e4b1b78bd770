-- ===== src/Tenant.antt =====
-- The account-scoped keys of the router's in-memory maps: `tenantKey` of internal/server/server.go,
-- and the prefix by which a loop over such a map picks one account's entries.
use text.Mathlib.TextLemmas.{append_assoc, append_cancel_left}
use tiller_router.Prelude.{
  String, str_eq, eq_iff, ◌≡◌, sym, ap, ap₂, ◌∙◌, true, ◌&&◌, arith, Bool-ext,
}
use tiller_router.Prelude.Text.{
  has_prefix, nul_free, ◌+++◌, nul_text, has_prefix-append, has_prefix-nul,
}

unfoldable pub tenant_key : String → String → String
tenant_key account id = (account +++ nul_text) +++ id

unfoldable pub tenant_prefix : String → String
tenant_prefix account = account +++ nul_text

-- An account's prefix is found on its own keys.
pub prefix-tenant_key_self : (a i : String) → has_prefix (tenant_key a i) (tenant_prefix a) ≡ true
unfolding tenant_key tenant_prefix
prefix-tenant_key_self a i = has_prefix-append (a +++ nul_text) i

pub prefix-tenant_key_inv :
    (a b i : String)
    → nul_free a ≡ true
    → nul_free b ≡ true
    → has_prefix (tenant_key a i) (tenant_prefix b) ≡ true
    → a ≡ b
unfolding tenant_key tenant_prefix
prefix-tenant_key_inv a b i p q h =
    has_prefix-nul a b i p q
      (ap (λ s. has_prefix s (b +++ nul_text)) (sym (append_assoc a nul_text i)) ∙ h)

-- Where account ids hold no NUL, the prefix test is equality of accounts.
pub prefix-tenant_key :
    (a b i : String)
    → nul_free a ≡ true
    → nul_free b ≡ true
    → has_prefix (tenant_key a i) (tenant_prefix b) ≡ str_eq a b
prefix-tenant_key a b i p q =
    Bool-ext _ _ (λ h. (eq_iff a b).1 (prefix-tenant_key_inv a b i p q h))
      (λ h.
        ap (λ s. has_prefix (tenant_key a i) (tenant_prefix s)) (sym ((eq_iff a b).0 h))
        ∙ prefix-tenant_key_self a i)

tenant_key_cancel : (a i j : String) → tenant_key a i ≡ tenant_key a j → i ≡ j
unfolding tenant_key
tenant_key_cancel a i j h = append_cancel_left (a +++ nul_text) i j h

pub tenant_key_inj :
    (a b i j : String)
    → nul_free a ≡ true
    → nul_free b ≡ true
    → tenant_key a i ≡ tenant_key b j
    → (a ≡ b) × (i ≡ j)
tenant_key_inj a b i j p q h =
    let same : a ≡ b =
      prefix-tenant_key_inv a b i p q
        (ap (λ s. has_prefix s (tenant_prefix b)) h ∙ prefix-tenant_key_self b j) in
    (same, tenant_key_cancel a i j (h ∙ ap (λ s. tenant_key s j) (sym same)))

-- Joined keys are equal exactly when account and id are.
pub tenant_key_eq :
    (a b i j : String)
    → nul_free a ≡ true
    → nul_free b ≡ true
    → str_eq (tenant_key a i) (tenant_key b j) ≡ (str_eq a b && str_eq i j)
tenant_key_eq a b i j p q =
    Bool-ext _ _
      (λ h.
        let (e, f) = tenant_key_inj a b i j p q ((eq_iff _ _).0 h) in
        ground (arith, (eq_iff a b).1 e, (eq_iff i j).1 f))
      (λ h.
        (eq_iff _ _).1
          (ap₂ tenant_key ((eq_iff a b).0 (ground arith)) ((eq_iff i j).0 (ground arith))))

-- ===== src/Inflight/Keys.antt =====
-- The composite keys of the tickets: three ids joined by NUL, which cannot collide.
use text.Mathlib.TextLemmas.{append_assoc}
use tiller_router.Prelude.{String, str_eq, ◌≡◌, ap, ap₂, ◌∙◌, true, ◌&&◌}
use tiller_router.Prelude.Text.{has_prefix, nul_free, ◌+++◌, nul_text}
use tiller_router.Tenant.{tenant_key, tenant_prefix, tenant_key_eq, prefix-tenant_key}
use tiller_router.Inflight.{inflight_client_key, inflight_target_key}

pub client_key_split : (a i r : String) → inflight_client_key a i r ≡ tenant_key a (tenant_key i r)
unfolding inflight_client_key tenant_key
client_key_split a i r =
    ap (λ s. s +++ r) (append_assoc (a +++ nul_text) i nul_text)
    ∙ append_assoc (a +++ nul_text) (i +++ nul_text) r

-- Client keys are equal exactly when account, client and route are.
pub client_key_eq :
    (a b i j r q : String)
    → nul_free a ≡ true
    → nul_free b ≡ true
    → nul_free i ≡ true
    → nul_free j ≡ true
    → str_eq (inflight_client_key a i r) (inflight_client_key b j q)
      ≡ (str_eq a b && (str_eq i j && str_eq r q))
client_key_eq a b i j r q fa fb fi fj =
    ap₂ str_eq (client_key_split a i r) (client_key_split b j q)
    ∙ tenant_key_eq a b (tenant_key i r) (tenant_key j q) fa fb
    ∙ ap (λ t. str_eq a b && t) (tenant_key_eq i j r q fi fj)

pub prefix-client_key :
    (a b i r : String)
    → nul_free a ≡ true
    → nul_free b ≡ true
    → has_prefix (inflight_client_key a i r) (tenant_prefix b) ≡ str_eq a b
prefix-client_key a b i r fa fb =
    ap (λ s. has_prefix s (tenant_prefix b)) (client_key_split a i r)
    ∙ prefix-tenant_key a b (tenant_key i r) fa fb

-- Target keys are built in the same way.
pub target_key_eq :
    (a b i j r q : String)
    → nul_free a ≡ true
    → nul_free b ≡ true
    → nul_free i ≡ true
    → nul_free j ≡ true
    → str_eq (inflight_target_key a i r) (inflight_target_key b j q)
      ≡ (str_eq a b && (str_eq i j && str_eq r q))
unfolding inflight_target_key
target_key_eq a b i j r q fa fb fi fj =
    unfold inflight_client_key in client_key_eq a b i j r q fa fb fi fj

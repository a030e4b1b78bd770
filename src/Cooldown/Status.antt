-- ===== src/Cooldown/Status.antt =====
-- `statusByName` answers with the entry that expires first, whatever the order of the map.
use tiller_router.Prelude.{
  ℕ, String, str_eq, eq_iff, ◌≡◌, refl, sym, ap, ◌∙◌, ◌⊎◌, Bool, true, false, Option, none, some,
  [], ◌∷◌, if◌then◌else◌, arith, Bool-cases, Option-cases, inl, inr,
}
use tiller_router.Prelude.Text.{has_prefix, nul_free}
use tiller_router.Prelude.TextOrder.{text_lt_trans, text_lt_total, text_lt_irrefl}
use tiller_router.Prelude.Table.{Table, get, Distinct}
use tiller_router.Tenant.{tenant_prefix, prefix-tenant_key_inv}
use tiller_router.Cooldown.{
  CooldownEntry, CooldownStore, named, sooner, better, scan_named, status_by_name,
}
use tiller_router.Cooldown.WellFormed.{WellFormed, IsKeyOf}

sooner_neg_trans :
    (a b c : CooldownEntry) → sooner a b ≡ false → sooner b c ≡ false → sooner a c ≡ false
unfolding sooner
sooner_neg_trans a b c p q =
    let x = a.provider_model_id in
    let y = b.provider_model_id in
    let z = c.provider_model_id in
    ground (arith, text_lt_trans y x z, text_lt_trans x z y, text_lt_total x y, text_lt_total y z)

sooner_asym : (a b : CooldownEntry) → sooner a b ≡ true → sooner b a ≡ false
unfolding sooner
sooner_asym a b p =
    let x = a.provider_model_id in
    let y = b.provider_model_id in ground (arith, text_lt_trans x y x, text_lt_irrefl x)

better_cases :
    (best : Option CooldownEntry) (x e : CooldownEntry)
    → better best x ≡ some e
    → (best ≡ some e) ⊎ (x ≡ e)
unfolding better
better_cases none x e h = ground arith
better_cases (some b) x e h = elim (Bool-cases (sooner x b)) [
  | inl s ↦ inr (ground arith)
  | inr s ↦ inl (ground arith)
]

better_least :
    (best : Option CooldownEntry) (x : CooldownEntry)
    → (s : CooldownEntry) × (better best x ≡ some s)
      × (sooner x s ≡ false)
      × ((b : CooldownEntry) → best ≡ some b → sooner b s ≡ false)
unfolding better
better_least none x = (x, refl, ground (arith, sooner_asym x x), λ b h. cc)
better_least (some a) x = elim (Bool-cases (sooner x a)) [
  | inl s ↦ (x, rw s, ground (arith, sooner_asym x x), λ b h. ground (arith, sooner_asym x a))
  | inr s ↦ (a, rw s, s, λ b h. ground (arith, sooner_asym a a))
]

module _ (p : String → CooldownEntry → Bool) where
  -- What the loop returns is the best so far, or an entry that passes.
  scan-source :
      (best : Option CooldownEntry) (m : Table CooldownEntry) (e : CooldownEntry)
      → Distinct m
      → scan_named p best m ≡ some e
      → (best ≡ some e) ⊎ ((key : String) × (get m key ≡ some e) × (p key e ≡ true))
  unfolding scan_named get
  scan-source best [] e d h = inl h
  scan-source best ((k, x) ∷ m) e d h =
      elim (scan-source (if p k x then better best x else best) m e d.1 h) [
        | inr (key, g, t) ↦ inr (key, ground (arith, eq_iff k key, d.0), t)
        | inl s ↦ elim (Bool-cases (p k x)) [
          | inr no_pass ↦ inl (ground arith)
          | inl pass ↦ elim (better_cases best x e (ground arith)) [
            | inl old ↦ inl old
            | inr new ↦ inr (k, ground (arith, eq_iff k k), ground arith)
          ]
        ]
      ]

  -- Nothing that passes, nor the best so far, comes sooner.
  scan-least :
      (best : Option CooldownEntry) (m : Table CooldownEntry) (e : CooldownEntry)
      → scan_named p best m ≡ some e
      → ((b : CooldownEntry) → best ≡ some b → sooner b e ≡ false)
        × ((key : String) (x : CooldownEntry)
            → get m key ≡ some x
            → p key x ≡ true
            → sooner x e ≡ false)
  unfolding scan_named get
  scan-least best [] e h = (λ b q. ground (arith, sooner_asym e e), λ key x g. cc)
  scan-least best ((k, x) ∷ m) e h =
      let (before, rest) = scan-least (if p k x then better best x else best) m e h in
      let (s, made, not_x, not_best) = better_least best x in
      elim (Bool-cases (p k x)) [
        | inr fail ↦ (
          λ b q. before b (ground arith),
          λ key y g t. elim (Bool-cases (str_eq k key)) [
            | inl same ↦ ground (arith, eq_iff k key)
            | inr other ↦ rest key y (ground arith) t
          ],
        )
        | inl pass ↦ (
          λ b q. sooner_neg_trans b s e (not_best b q) (before s (ground arith)),
          λ key y g t. elim (Bool-cases (str_eq k key)) [
            | inl same ↦ sooner_neg_trans y s e (ground arith) (before s (ground arith))
            | inr other ↦ rest key y (ground arith) t
          ],
        )
      ]

  scan-none :
      (best : Option CooldownEntry) (m : Table CooldownEntry)
      → scan_named p best m ≡ none
      → (best ≡ none) × ((key : String) (x : CooldownEntry) → get m key ≡ some x → p key x ≡ false)
  unfolding scan_named get
  scan-none best [] h = (h, λ key x g. cc)
  scan-none best ((k, x) ∷ m) h =
      let (empty, rest) = scan-none (if p k x then better best x else best) m h in
      let (s, made, _, _) = better_least best x in
      elim (Bool-cases (p k x)) [
        | inl pass ↦ absurd (ground arith)
        | inr fail ↦ (
          ground arith,
          λ key y g. elim (Bool-cases (str_eq k key)) [
            | inl same ↦ ground (arith, eq_iff k key)
            | inr other ↦ rest key y (ground arith)
          ],
        )
      ]

-- An entry that `statusByName` may return, under its key.
abbrev pub Candidate :
    CooldownStore → String → String → String → ℕ → String → CooldownEntry → Type 0
Candidate c account provider model now key e =
    (get c.until key ≡ some e) × (named account provider model now key e ≡ true)

-- In a well-formed store, whatever its order: `statusByName` returns an entry of the account that
-- has the names and still cools, and no other such entry has an earlier expiry, or the same expiry
-- and a smaller id.
pub status_by_name-earliest :
    (c : CooldownStore) (account provider model : String) (now : ℕ) (e : CooldownEntry)
    → WellFormed c
    → status_by_name c account provider model now ≡ some e
    → ((key : String) × Candidate c account provider model now key e)
      × ((key : String) (x : CooldownEntry)
          → Candidate c account provider model now key x
          → sooner x e ≡ false)
unfolding status_by_name
status_by_name-earliest c account provider model now e w h =
    let p = named account provider model now in
    (
      elim (scan-source p none c.until e w.distinct h) [
        | inl absent ↦ absurd (cc)
        | inr (key, g, t) ↦ (key, (g, t))
      ],
      λ key x k. (scan-least p none c.until e h).1 key x k.0 k.1,
    )

-- `statusByName` finds nothing only if the account has no entry with the names that still cools.
pub status_by_name-none :
    (c : CooldownStore) (account provider model : String) (now : ℕ)
    → status_by_name c account provider model now ≡ none
    → (key : String) (x : CooldownEntry) → get c.until key ≡ some x
    → named account provider model now key x ≡ false
unfolding status_by_name
status_by_name-none c account provider model now h =
    (scan-none (named account provider model now) none c.until h).1

sooner_total :
    (a b : CooldownEntry)
    → sooner a b ≡ false
    → sooner b a ≡ false
    → a.provider_model_id ≡ b.provider_model_id
unfolding sooner
sooner_total a b p q = ground (arith, text_lt_total a.provider_model_id b.provider_model_id)

named-prefix :
    (account provider model key : String) (now : ℕ) (e : CooldownEntry)
    → named account provider model now key e ≡ true
    → has_prefix key (tenant_prefix account) ≡ true
unfolding named
named-prefix account provider model key now e h = ground arith

-- Two entries of one account with one id have one key.
same_key :
    (account key key' : String) (e e' : CooldownEntry)
    → nul_free account ≡ true
    → IsKeyOf key e
    → IsKeyOf key' e'
    → has_prefix key (tenant_prefix account) ≡ true
    → has_prefix key' (tenant_prefix account) ≡ true
    → e.provider_model_id ≡ e'.provider_model_id
    → key ≡ key'
same_key account key key' e e' free (a, p, k) (a', p', k') h h' ids =
    let test = λ (s : String). has_prefix s (tenant_prefix account) in
    let mine : a ≡ account =
      prefix-tenant_key_inv a account e.provider_model_id p free (ap test (sym k) ∙ h) in
    let mine' : a' ≡ account =
      prefix-tenant_key_inv a' account e'.provider_model_id p' free (ap test (sym k') ∙ h') in
    cc

some_and_none :
    (c c' : CooldownStore) (account provider model : String) (now : ℕ) (e : CooldownEntry)
    → WellFormed c
    → ((key : String) → get c.until key ≡ get c'.until key)
    → status_by_name c account provider model now ≡ some e
    → status_by_name c' account provider model now ≡ none
    → ⊥
some_and_none c c' account provider model now e w same found empty =
    let ((key, k), _) = status_by_name-earliest c account provider model now e w found in
    let passes = k.1 in
    cc (status_by_name-none c' account provider model now empty key e (sym (same key) ∙ k.0))

-- For an account without NUL and two well-formed stores that hold the same entries, `statusByName`
-- answers alike: the answer does not depend on the order in which the map is visited.
pub status_by_name_order :
    (c c' : CooldownStore) (account provider model : String) (now : ℕ)
    → nul_free account ≡ true
    → WellFormed c
    → WellFormed c'
    → ((key : String) → get c.until key ≡ get c'.until key)
    → status_by_name c account provider model now ≡ status_by_name c' account provider model now
status_by_name_order c c' account provider model now free w w' same =
    elim (Option-cases (status_by_name c account provider model now)) [
      | inl empty ↦ elim (Option-cases (status_by_name c' account provider model now)) [
        | inl empty' ↦ cc
        | inr (e', found') ↦
            absurd
              (some_and_none c' c account provider model now e' w' (λ k. sym (same k)) found' empty)
      ]
      | inr (e, found) ↦ elim (Option-cases (status_by_name c' account provider model now)) [
        | inl empty' ↦ absurd (some_and_none c c' account provider model now e w same found empty')
        | inr (e', found') ↦
            let ((key, k), least) =
              status_by_name-earliest c account provider model now e w found in
            let ((key', k'), least') =
              status_by_name-earliest c' account provider model now e' w' found' in
            let one_key : key ≡ key' =
              same_key account key key' e e' free (w.keyed key e k.0) (w'.keyed key' e' k'.0)
                (named-prefix account provider model key now e k.1)
                (named-prefix account provider model key' now e' k'.1)
                (sooner_total e e' (least' key e (sym (same key) ∙ k.0, k.1))
                  (least key' e' (same key' ∙ k'.0, k'.1))) in
            let at_key = k.0 in let at_key' = k'.0 in cc (same key)
      ]
    ]

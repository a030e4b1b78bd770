-- ===== src/Auth/Scopes.antt =====
-- internal/auth/api_tokens.go: the scope set of a management token, a ceiling per area. A Go map is a
-- `Table`; a tier is Go's `int`.
use mathlib.Core.Path.{subst}
use tiller_router.Prelude.{
  ℕ, ◌≤◌, ◌<◌, String, str_eq, eq_iff, ◌≡◌, refl, sym, ◌∙◌, Bool, true, false, not, ◌&&◌, ◌||◌,
  Option, none, some, ◌⊎◌, inl, inr, List, [], ◌∷◌, leb, if◌then◌else◌, arith, Bool-cases,
  Option-cases,
}
use tiller_router.Prelude.Int.{ℤ, pos, negsuc}
use tiller_router.Prelude.Table.{Table, get, put, Distinct, get-put}

abbrev pub scope_read : ℕ
scope_read = 1

abbrev pub scope_write : ℕ
scope_write = 2

abbrev pub scope_delete : ℕ
scope_delete = 3

abbrev pub management_scope_areas : List String
management_scope_areas = "providers" ∷ "virtual" ∷ "client_keys" ∷ "settings" ∷ "monitoring" ∷ []

unfoldable pub is_area : List String → String → Bool
is_area [] area = false
is_area (known ∷ rest) area = str_eq known area || is_area rest area

-- ScopeRead ≤ tier ≤ ScopeDelete
abbrev pub in_range : ℤ → Bool
in_range (pos tier) = leb scope_read tier && leb tier scope_delete
in_range (negsuc n) = false

pub data ScopeError : Type 0 where
  unknown_area bad_tier : String → ScopeError

-- The loop, with the map `canonical` built so far.
unfoldable pub validate_from : Table ℤ → Table ℤ → ScopeError ⊎ Table ℤ
validate_from canonical [] = inr canonical
validate_from canonical ((area, tier) ∷ scopes) =
    let rest = validate_from (put canonical area tier) scopes in
    if not (is_area management_scope_areas area)
    then inl (unknown_area area)
    else if not (in_range tier)
    then inl (bad_tier area)
    else rest

-- The canonical scopes, which the source then encodes as JSON.
unfoldable pub validate_management_scopes : Table ℤ → ScopeError ⊎ Table ℤ
validate_management_scopes scopes = validate_from [] scopes

-- The loop over the areas, each at the delete ceiling.
unfoldable pub grant_all : List String → Table ℤ
grant_all [] = []
grant_all (area ∷ areas) = put (grant_all areas) area (pos scope_delete)

unfoldable pub full_management_scopes : Table ℤ
full_management_scopes = grant_all management_scope_areas

-- A missing area is Go's zero.
abbrev pub tier_of : Option ℤ → ℤ
tier_of none = pos 0
tier_of (some tier) = tier

abbrev pub reaches : ℤ → ℕ → Bool
reaches (pos tier) required = leb required tier
reaches (negsuc n) required = false

-- `required` is one of the three tiers.
unfoldable pub allows : Table ℤ → String → ℕ → Bool
allows scopes area required = reaches (tier_of (get scopes area)) required

-- Every area of the set is known, and every tier is one of the three.
abbrev pub AllValid : Table ℤ → Type 0
AllValid [] = Unit
AllValid ((area, tier) ∷ scopes) =
    (is_area management_scope_areas area ≡ true) × (in_range tier ≡ true) × AllValid scopes

-- A map over another.
abbrev over : Option ℤ → Option ℤ → Option ℤ
over none old = old
over (some tier) old = some tier

validate_from-valid :
    (canonical scopes out : Table ℤ)
    → Distinct scopes
    → validate_from canonical scopes ≡ inr out
    → AllValid scopes
      × ((area : String) → get out area ≡ over (get scopes area) (get canonical area))
unfolding validate_from get
validate_from-valid canonical [] out d h = (tt, λ area. ground (arith, h))
validate_from-valid canonical ((name, tier) ∷ scopes) out d h =
    let (valid, same) =
      validate_from-valid (put canonical name tier) scopes out d.1 (ground (arith, h)) in
    (
      (ground (arith, h), ground (arith, h), valid),
      λ area. ground (arith, same area, get-put canonical name area tier, d.0, eq_iff name area),
    )

validate_from-accepts :
    (canonical scopes : Table ℤ)
    → AllValid scopes
    → (out : Table ℤ) × (validate_from canonical scopes ≡ inr out)
unfolding validate_from
validate_from-accepts canonical [] valid = (canonical, refl)
validate_from-accepts canonical ((name, tier) ∷ scopes) valid =
    let (out, h) = validate_from-accepts (put canonical name tier) scopes valid.2 in
    (out, ground (arith, h, valid.0, valid.1))

over-none : (found : Option ℤ) → over found none ≡ found
over-none none = refl
over-none (some tier) = refl

-- For a set that names no area twice: the validation accepts exactly the sets of which every area is
-- known and every tier between read and delete, and then returns the same scopes.
pub validate_management_scopes_lem :
    (scopes : Table ℤ)
    → Distinct scopes
    → (AllValid scopes → (out : Table ℤ) × (validate_management_scopes scopes ≡ inr out))
      × ((out : Table ℤ)
          → validate_management_scopes scopes ≡ inr out
          → AllValid scopes × ((area : String) → get out area ≡ get scopes area))
unfolding validate_management_scopes get
validate_management_scopes_lem scopes d = (
  validate_from-accepts [] scopes,
  λ out h.
      let (valid, same) = validate_from-valid [] scopes out d h in
      (valid, λ area. same area ∙ over-none (get scopes area)),
)

AllValid-get :
    (scopes : Table ℤ) (area : String) (tier : ℤ)
    → AllValid scopes
    → get scopes area ≡ some tier
    → (is_area management_scope_areas area ≡ true) × (in_range tier ≡ true)
unfolding get
AllValid-get [] area tier valid h = absurd (cc)
AllValid-get ((name, t) ∷ scopes) area tier valid h =
    let rest = AllValid-get scopes area tier valid.2 in
    elim (Bool-cases (str_eq name area)) [
      | inl same ↦
          let tiers : t ≡ tier = ground (arith, h, same) in
          let names : name ≡ area = (eq_iff name area).0 same in
          (
            subst (λ (n : String). is_area management_scope_areas n ≡ true) names valid.0,
            subst (λ (u : ℤ). in_range u ≡ true) tiers valid.1,
          )
      | inr other ↦ rest (ground (arith, h, other))
    ]

get-grant_all :
    (areas : List String) (area : String)
    → is_area areas area ≡ true
    → get (grant_all areas) area ≡ some (pos scope_delete)
unfolding is_area grant_all
get-grant_all [] area h = absurd (cc)
get-grant_all (known ∷ areas) area h =
    ground
      (arith, h, get-grant_all areas area, get-put (grant_all areas) known area (pos scope_delete))

allows-held :
    (scopes : Table ℤ) (area : String) (required : ℕ)
    → 0 < required
    → allows scopes area required ≡ true
    → (tier : ℤ) × (get scopes area ≡ some tier) × (reaches tier required ≡ true)
unfolding allows
allows-held scopes area required positive allowed = elim (Option-cases (get scopes area)) [
  | inl absent ↦ absurd (ground (arith, allowed, absent, positive))
  | inr (tier, held) ↦ (tier, held, ground (arith, allowed, held))
]

reaches-bound :
    (tier : ℤ) (required : ℕ)
    → in_range tier ≡ true
    → reaches tier required ≡ true
    → required ≤ scope_delete
reaches-bound (pos tier) required ranged reached = ground (arith, ranged, reached)
reaches-bound (negsuc n) required ranged reached = absurd (cc)

allows-full_area :
    (area : String) (required : ℕ)
    → is_area management_scope_areas area ≡ true
    → required ≤ scope_delete
    → allows full_management_scopes area required ≡ true
unfolding allows full_management_scopes
allows-full_area area required known bound =
    ground (arith, get-grant_all management_scope_areas area known, bound)

-- For a set that names no area twice and a required tier above zero: no token whose scopes were
-- validated reaches an unknown area, or a tier above delete; and the full set of the boot token
-- reaches all that the validated set reaches.
pub allows-full :
    (scopes out : Table ℤ) (area : String) (required : ℕ)
    → Distinct scopes
    → 0 < required
    → validate_management_scopes scopes ≡ inr out
    → allows out area required ≡ true
    → (is_area management_scope_areas area ≡ true)
      × (required ≤ scope_delete)
      × (allows full_management_scopes area required ≡ true)
allows-full scopes out area required d positive h allowed =
    let (valid, same) = (validate_management_scopes_lem scopes d).1 out h in
    let (tier, held, reached) = allows-held out area required positive allowed in
    let (known, ranged) = AllValid-get scopes area tier valid (sym (same area) ∙ held) in
    let bound = reaches-bound tier required ranged reached in
    (known, bound, allows-full_area area required known bound)

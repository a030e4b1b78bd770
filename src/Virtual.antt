-- ===== src/Virtual.antt =====
-- internal/server/virtual_capabilities.go: what a virtual model is advertised to do, from its targets. A
-- pointer that may be nil is an Option. The two halves of `aggregateVirtualCapabilities` that share its
-- first loop are independent of each other: `aggregate_limit` is either of them.
mod Limits
mod Flags
mod Examples
use tiller_router.Prelude.{
  ℕ, zero, suc, Bool, true, false, not, ◌&&◌, ◌||◌, Option, none, some, List, [], ◌∷◌, ltb,
  if◌then◌else◌,
}
use tiller_router.Prelude.Int.{ℤ, pos, negsuc}

-- The fields of virtualTargetView that decide what is aggregated.
pub record Target : Type 0 where
  pub enabled : Bool
  pub available : Bool
  pub context_length : Option ℤ
  pub max_output_tokens : Option ℤ
  pub supports_tools : Option Bool
  pub supports_vision : Option Bool
  pub supports_reasoning : Option Bool
  pub supports_structured_output : Option Bool

unfoldable pub virtual_target_eligible : Target → Bool
virtual_target_eligible t = t.enabled && t.available

unfoldable pub eligible_virtual_targets : List Target → List Target
unfolding virtual_target_eligible
eligible_virtual_targets [] = []
eligible_virtual_targets (t ∷ targets) =
    let rest = eligible_virtual_targets targets in
    if virtual_target_eligible t then t ∷ rest else rest

-- A limit that is known: not nil, and above zero.
abbrev pub known_limit : Option ℤ → Option ℕ
known_limit none = none
known_limit (some (negsuc n)) = none
known_limit (some (pos zero)) = none
known_limit (some (pos (suc n))) = some (suc n)

abbrev pub lower : Option ℕ → ℕ → Option ℕ
lower none n = some n
lower (some m) n = if ltb n m then some n else some m

-- One turn of the loop: whether every limit so far is known, and the least so far.
abbrev pub limit_turn : Bool → Option ℕ → Option ℕ → Bool × Option ℕ
limit_turn known least none = (false, least)
limit_turn known least (some n) = (known, if known then lower least n else least)

unfoldable pub limit_from : Bool → Option ℕ → List (Option ℤ) → Option ℕ
limit_from known least [] = if known then least else none
limit_from known least (v ∷ limits) =
    let (known', least') = limit_turn known least (known_limit v) in limit_from known' least' limits

unfoldable pub aggregate_limit : List (Option ℤ) → Option ℕ
aggregate_limit limits = limit_from true none limits

unfoldable pub flag_from : Bool → List (Option Bool) → Option Bool
flag_from unknown [] = if unknown then none else some true
flag_from unknown (none ∷ flags) = flag_from true flags
flag_from unknown (some true ∷ flags) = flag_from unknown flags
flag_from unknown (some false ∷ flags) = some false

unfoldable pub aggregate_virtual_bool : List (Option Bool) → Option Bool
aggregate_virtual_bool flags = flag_from false flags

unfoldable pub merge_bool_and_ptr : Option Bool → Option Bool → Option Bool
merge_bool_and_ptr none b = none
merge_bool_and_ptr (some a) none = none
merge_bool_and_ptr (some a) (some b) = some (a && b)

unfoldable pub merge_bool_ptr : Option Bool → Option Bool → Option Bool
merge_bool_ptr none b = b
merge_bool_ptr (some a) none = some a
merge_bool_ptr (some a) (some b) = some (a || b)

abbrev pub context_lengths : List Target → List (Option ℤ)
context_lengths [] = []
context_lengths (t ∷ targets) = t.context_length ∷ context_lengths targets

-- aggregateVirtualNumeric without an override.
unfoldable pub aggregate_virtual_numeric : List Target → Option ℕ
aggregate_virtual_numeric targets =
    aggregate_limit (context_lengths (eligible_virtual_targets targets))

-- ===== src/Virtual/Flags.antt =====
-- The advertised flags: supported by all, refused by one, or unknown.
use tiller_router.Prelude.{
  ◌≡◌, refl, Bool, true, false, Option, none, some, List, [], ◌∷◌, ◌++◌, ◌∙◌, ap, sym,
}
use tiller_router.Virtual.{flag_from, aggregate_virtual_bool}

-- Three-valued conjunction: one refusal refuses, whatever is unknown.
unfoldable pub both : Option Bool → Option Bool → Option Bool
both (some false) b = some false
both (some true) b = b
both none (some false) = some false
both none (some true) = none
both none none = none

both_idem : (b : Option Bool) → both none (both none b) ≡ both none b
unfolding both
both_idem none = refl
both_idem (some true) = refl
both_idem (some false) = refl

both_comm : (a b : Option Bool) → both a b ≡ both b a
unfolding both
both_comm none none = refl
both_comm none (some true) = refl
both_comm none (some false) = refl
both_comm (some true) none = refl
both_comm (some true) (some true) = refl
both_comm (some true) (some false) = refl
both_comm (some false) none = refl
both_comm (some false) (some true) = refl
both_comm (some false) (some false) = refl

both_assoc : (a b c : Option Bool) → both (both a b) c ≡ both a (both b c)
unfolding both
both_assoc (some false) b c = refl
both_assoc (some true) b c = refl
both_assoc none (some false) c = refl
both_assoc none (some true) c = refl
both_assoc none none c = sym (both_idem c)

-- What is still to come after an unknown flag.
flag_from-unknown :
    (flags : List (Option Bool)) → flag_from true flags ≡ both none (flag_from false flags)
unfolding flag_from both
flag_from-unknown [] = refl
flag_from-unknown (none ∷ flags) =
    flag_from-unknown flags
    ∙ sym (both_idem (flag_from false flags))
    ∙ ap (λ (b : Option Bool). both none b) (sym (flag_from-unknown flags))
flag_from-unknown (some true ∷ flags) = flag_from-unknown flags
flag_from-unknown (some false ∷ flags) = refl

flag_from-cons :
    (v : Option Bool) (flags : List (Option Bool))
    → flag_from false (v ∷ flags) ≡ both v (flag_from false flags)
unfolding flag_from both
flag_from-cons none flags = flag_from-unknown flags
flag_from-cons (some true) flags = refl
flag_from-cons (some false) flags = refl

flag_from-append :
    (before after : List (Option Bool))
    → flag_from false (before ++ after) ≡ both (flag_from false before) (flag_from false after)
flag_from-append [] after = unfold flag_from both in refl
flag_from-append (v ∷ before) after =
    flag_from-cons v (before ++ after)
    ∙ ap (λ (b : Option Bool). both v b) (flag_from-append before after)
    ∙ sym (both_assoc v (flag_from false before) (flag_from false after))
    ∙ ap (λ (b : Option Bool). both b (flag_from false after)) (sym (flag_from-cons v before))

-- The flag of some targets and further ones is the three-valued conjunction of the two flags, and is
-- the same in the other order.
pub aggregate_virtual_bool-append :
    (before after : List (Option Bool))
    → (aggregate_virtual_bool (before ++ after)
        ≡ both (aggregate_virtual_bool before) (aggregate_virtual_bool after))
      × (aggregate_virtual_bool (before ++ after) ≡ aggregate_virtual_bool (after ++ before))
unfolding aggregate_virtual_bool
aggregate_virtual_bool-append before after = (
  flag_from-append before after,
  flag_from-append before after
      ∙ both_comm (flag_from false before) (flag_from false after)
      ∙ sym (flag_from-append after before),
)

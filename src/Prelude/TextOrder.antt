-- ===== src/Prelude/TextOrder.antt =====
-- Go's `<` on strings: the order of their bytes, which is that of the code points. It is a strict
-- total order.
use Prim.Native.Nat.{ℕ, Ordering, compare as compare_nat}
use Prim.Native.String.{String, [], ◌∷◌, compare, then}
use Prim.Native.String.compare
use mathlib.Core.Path.{◌≡◌, refl}
use mathlib.Core.Bool.{Bool, true, false}
use native.Mathlib.Omega.{arith}
use text.Mathlib.Text.{is_lt}
use text.Mathlib.TextEquality.{path_by_compare}
use text.Mathlib.TextPositions.{compare_refl}

abbrev pub text_lt : String → String → Bool
text_lt s t = is_lt (compare s t)

flip : Ordering → Ordering
flip Ordering.lt = Ordering.gt
flip Ordering.eq = Ordering.eq
flip Ordering.gt = Ordering.lt

then-flip :
    (m n : ℕ) (o : Ordering) → then (compare_nat m n) o ≡ flip (then (compare_nat n m) (flip o))
unfolding flip
then-flip m n o = ground arith

compare-flip : (s t : String) → compare s t ≡ flip (compare t s)
unfolding flip
compare-flip [] [] = refl
compare-flip [] (d ∷ t) = ground (arith, compare.nil-cons d t, compare.cons-nil d t)
compare-flip (c ∷ s) [] = ground (arith, compare.nil-cons c s, compare.cons-nil c s)
compare-flip (c ∷ s) (d ∷ t) =
    ground (arith, compare.cons-cons c d s t, compare.cons-cons d c t s, compare-flip s t)

pub text_lt_trans : (s t u : String) → text_lt s t ≡ true → text_lt t u ≡ true → text_lt s u ≡ true
text_lt_trans [] [] u p q = ground (arith, compare.nil-nil)
text_lt_trans [] (d ∷ t) [] p q = ground (arith, compare.cons-nil d t)
text_lt_trans [] (d ∷ t) (e ∷ u) p q = ground (arith, compare.nil-cons e u)
text_lt_trans (c ∷ s) [] u p q = ground (arith, compare.cons-nil c s)
text_lt_trans (c ∷ s) (d ∷ t) [] p q = ground (arith, compare.cons-nil d t)
text_lt_trans (c ∷ s) (d ∷ t) (e ∷ u) p q = ground (
  arith,
  text_lt_trans s t u,
  compare.cons-cons c d s t,
  compare.cons-cons d e t u,
  compare.cons-cons c e s u,
  path_by_compare s t,
  path_by_compare t u,
)

-- Of two texts that do not stand in order either way there is only one.
pub text_lt_total : (s t : String) → text_lt s t ≡ false → text_lt t s ≡ false → s ≡ t
unfolding flip
text_lt_total s t p q = ground (arith, compare-flip s t, path_by_compare s t)

pub text_lt_irrefl : (s : String) → text_lt s s ≡ false
text_lt_irrefl s = ground (arith, compare_refl s)

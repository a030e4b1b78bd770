-- ===== src/Prelude/Text.antt =====
-- Go strings that are joined by NUL: `strings.HasPrefix`, and why joined keys cannot collide.
use Prim.Native.Char.{Char, code, nul}
use Prim.Native.String.{String, [], ◌∷◌}
use Prim.Native.String
use Prim.Native.String.append
use mathlib.Core.Path.{◌≡◌, refl, ap₂, sym, ◌∙◌}
use mathlib.Core.Bool.{Bool, true, false, not, ◌&&◌}
use native.Mathlib.Omega.{arith}
use text.Mathlib.TextEquality.{Char-path}
use tiller_router.Prelude.Tests.{◌==◌}

unfoldable pub has_prefix : String → String → Bool
has_prefix s [] = true
has_prefix [] (c ∷ p) = false
has_prefix (d ∷ s) (c ∷ p) = (code c == code d) && has_prefix s p

-- No NUL in the text.
unfoldable pub nul_free : String → Bool
nul_free [] = true
nul_free (c ∷ s) = not (code c == 0) && nul_free s

infixr 65 ◌+++◌
abbrev pub ◌+++◌ : String → String → String
s +++ t = String.◌++◌ s t

abbrev pub nul_text : String
nul_text = nul ∷ []

pub has_prefix-append : (s t : String) → has_prefix (s +++ t) s ≡ true
unfolding has_prefix
has_prefix-append [] t = refl
has_prefix-append (c ∷ s) t = ground (arith, append.cons c s t, has_prefix-append s t)

-- A text without NUL is found again at the first NUL of a joined key.
pub has_prefix-nul :
    (a b t : String)
    → nul_free a ≡ true
    → nul_free b ≡ true
    → has_prefix (a +++ (nul_text +++ t)) (b +++ nul_text) ≡ true
    → a ≡ b
unfolding has_prefix nul_free
has_prefix-nul [] [] t p q h = refl
has_prefix-nul [] (c ∷ b) t p q h =
    ground (arith, append.nil (nul_text +++ t), append.cons nul [] t, append.cons c b nul_text)
has_prefix-nul (c ∷ a) [] t p q h =
    ground (arith, append.nil nul_text, append.cons c a (nul_text +++ t))
has_prefix-nul (c ∷ a) (d ∷ b) t p q h =
    let same : code d ≡ code c =
      ground (arith, append.cons c a (nul_text +++ t), append.cons d b nul_text) in
    let rest : a ≡ b =
      has_prefix-nul a b t (ground arith) (ground arith)
        (ground (arith, append.cons c a (nul_text +++ t), append.cons d b nul_text)) in
    ap₂ (λ (x : Char) (y : String). x ∷ y) (Char-path c d (sym same)) rest

-- s[len(p):], where `p` is a prefix of `s`.
unfoldable pub cut_prefix : String → String → String
cut_prefix s [] = s
cut_prefix [] (c ∷ p) = []
cut_prefix (d ∷ s) (c ∷ p) = cut_prefix s p

pub cut_prefix-append : (s t : String) → cut_prefix (s +++ t) s ≡ t
unfolding cut_prefix
cut_prefix-append [] t = append.nil t
cut_prefix-append (c ∷ s) t = rw (append.cons c s t) (cut_prefix-append s t)

-- A text that has a prefix is the prefix and what is left.
pub append-cut_prefix : (s p : String) → has_prefix s p ≡ true → p +++ cut_prefix s p ≡ s
unfolding cut_prefix has_prefix
append-cut_prefix s [] h = append.nil s
append-cut_prefix [] (c ∷ p) h = ground arith
append-cut_prefix (d ∷ s) (c ∷ p) h =
    append.cons c p (cut_prefix s p)
    ∙ ap₂ (λ (x : Char) (y : String). x ∷ y) (Char-path c d (ground arith))
        (append-cut_prefix s p (ground arith))

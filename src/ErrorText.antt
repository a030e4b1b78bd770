-- ===== src/ErrorText.antt =====
-- internal/server/upstream_error.go: `sanitizeErrorText`, on the runes of a text. Go's `strings` and `unicode`
-- and the decoding of JSON are arguments.
use Prim.Native.Char.{Char, code}
use Prim.Native.String.{String, [], ◌∷◌}
use mathlib.Core.Bool.{Bool, true, false, ◌||◌}
use mathlib.Core.Option.{Option}
use tiller_router.Prelude.{ℕ, zero, suc, ◌+◌, ◌≤◌, str_eq, ◌==◌, if◌then◌else◌, arith}
use tiller_router.Prelude.Text.{◌+++◌}

-- upstreamErrorDetail: the type is `class`.
pub record ErrorDetail : Type 0 where
  pub message : String
  pub code : String
  pub param : String
  pub class : String

-- The member `error` of an envelope: an object, a text, or something else.
pub data ErrorMember : Type 0 where
  absent other : ErrorMember
  object : ErrorDetail → ErrorMember
  text : String → ErrorMember

-- strings.TrimSpace, ToLower and Contains, `strings.Join(strings.Fields(s), " ")`, unicode.IsControl, and
-- `json.Unmarshal` of an envelope: its member `error` and its message.
pub record Texts : Type 0 where
  pub trim : String → String
  pub lower : String → String
  pub contains : String → String → Bool
  pub join_fields : String → String
  pub is_control : Char → Bool
  pub envelope : String → Option (ErrorMember × String)

abbrev pub max_client_error_message_runes : ℕ
max_client_error_message_runes = 2000

unfoldable pub clean : (Char → Bool) → String → String
clean is_control [] = []
clean is_control (c ∷ s) =
    let rest = clean is_control s in
    if code c == 10 || code c == 9 then " " +++ rest else if is_control c then rest else c ∷ rest

unfoldable pub take_runes : ℕ → String → String
take_runes zero s = []
take_runes (suc n) [] = []
take_runes (suc n) (c ∷ s) = c ∷ take_runes n s

unfoldable pub sanitize_error_text : Texts → String → String
unfolding clean take_runes
sanitize_error_text x s =
    if str_eq s ""
    then ""
    else x.trim (take_runes max_client_error_message_runes (x.join_fields (clean x.is_control s)))

unfoldable pub runes : String → ℕ
runes [] = 0
runes (c ∷ s) = runes s + 1

pub runes-take_runes : (n : ℕ) (s : String) → runes (take_runes n s) ≤ n
unfolding runes take_runes
runes-take_runes zero s = omega arith
runes-take_runes (suc n) [] = omega arith
runes-take_runes (suc n) (c ∷ s) = ground (arith, runes-take_runes n s)

if-runes : (b : Bool) (s : String) (n : ℕ) → runes s ≤ n → runes (if b then "" else s) ≤ n
unfolding runes
if-runes true s n h = omega arith
if-runes false s n h = h

pub runes-sanitize_error_text :
    (x : Texts) (s : String)
    → ((t : String) → runes (x.trim t) ≤ runes t)
    → runes (sanitize_error_text x s) ≤ max_client_error_message_runes
unfolding sanitize_error_text
runes-sanitize_error_text x s shorter =
    let kept = take_runes 2000 (x.join_fields (clean x.is_control s)) in
    if-runes (str_eq s "") (x.trim kept) 2000
      (ground (arith, shorter kept, runes-take_runes 2000 (x.join_fields (clean x.is_control s))))

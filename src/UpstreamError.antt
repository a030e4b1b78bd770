-- ===== src/UpstreamError.antt =====
-- internal/server/upstream_error.go: what is told of a provider's error response, and which failures are the
-- request's own.
mod Unwrap
mod Examples
use tiller_router.Prelude.{
  ℕ, zero, suc, String, str_eq, Bool, true, false, not, ◌&&◌, ◌||◌, Option, none, some, List, [],
  ◌∷◌, if◌then◌else◌,
}
use tiller_router.Prelude.Text.{has_prefix}
use tiller_router.ErrorText.{
  ErrorDetail, ErrorMember, absent, other, object, text, Texts, sanitize_error_text,
}

abbrev pub max_error_detail_unwrap_depth : ℕ
max_error_detail_unwrap_depth = 3

abbrev pub no_detail : ErrorDetail
no_detail = record { message = ""; code = ""; param = ""; class = "" }

abbrev pub only_message : String → ErrorDetail
only_message m = record { message = m; code = ""; param = ""; class = "" }

abbrev pub shows : Texts → String → Bool
shows x s = not (str_eq (sanitize_error_text x s) "")

unfoldable pub usable : Texts → ErrorDetail → Bool
usable x d = shows x d.message || shows x d.code || shows x d.param

-- top.Message, unless it is empty
abbrev pub top_message : String → ErrorDetail
top_message m = if not (str_eq m "") then only_message m else no_detail

unfoldable pub read_member : Texts → ErrorMember → String → ErrorDetail
unfolding usable
read_member x absent m = top_message m
read_member x other m = top_message m
read_member x (object d) m = if usable x d then d else top_message m
read_member x (text s) m = only_message s

unfoldable pub read_envelope : Texts → Option (ErrorMember × String) → ErrorDetail
unfolding read_member
read_envelope x none = no_detail
read_envelope x (some (member, m)) = read_member x member m

-- A plain text is told as it is if `plain` holds: its content type, its size and its encoding allow it.
unfoldable pub parse_error_envelope : Texts → String → Bool → ErrorDetail
unfolding read_envelope
parse_error_envelope x body plain =
    let trimmed = x.trim body in
    if str_eq trimmed ""
    then no_detail
    else if has_prefix trimmed "{"
    then read_envelope x (x.envelope body)
    else if plain
    then only_message trimmed
    else no_detail

unfoldable pub first_non_empty : Texts → List String → String
first_non_empty x [] = ""
first_non_empty x (value ∷ values) =
    if not (str_eq (x.trim value) "") then value else first_non_empty x values

-- The fields of the inner detail win.
unfoldable pub filled : Texts → ErrorDetail → ErrorDetail → ErrorDetail
unfolding first_non_empty
filled x inner detail = record inner {
  code = first_non_empty x (inner.code ∷ detail.code ∷ []);
  param = first_non_empty x (inner.param ∷ detail.param ∷ []);
  class = first_non_empty x (inner.class ∷ detail.class ∷ []);
}

-- One turn of the loop, if it goes on.
unfoldable pub peel : Texts → ErrorDetail → Option ErrorDetail
unfolding parse_error_envelope filled usable
peel x detail =
    let inner = parse_error_envelope x detail.message false in
    if has_prefix (x.trim detail.message) "{"
    then if usable x inner then some (filled x inner detail) else none
    else none

abbrev pub or_stay : ErrorDetail → (ErrorDetail → ErrorDetail) → Option ErrorDetail → ErrorDetail
or_stay detail go_on none = detail
or_stay detail go_on (some inner) = go_on inner

-- The turns that are left, from the depth to the limit.
unfoldable pub unwrap_from : Texts → ℕ → ErrorDetail → ErrorDetail
unwrap_from x zero detail = detail
unwrap_from x (suc left) detail =
    or_stay detail (λ (inner : ErrorDetail). unwrap_from x left inner) (peel x detail)

unfoldable pub unwrap_error_detail : Texts → ErrorDetail → ErrorDetail
unfolding unwrap_from
unwrap_error_detail x detail = unwrap_from x max_error_detail_unwrap_depth detail

unfoldable pub sanitized : Texts → ErrorDetail → ErrorDetail
sanitized x d = record {
  message = sanitize_error_text x d.message;
  code = sanitize_error_text x d.code;
  param = sanitize_error_text x d.param;
  class = sanitize_error_text x d.class;
}

unfoldable pub parse_upstream_error_detail : Texts → String → Bool → ErrorDetail
unfolding sanitized unwrap_error_detail parse_error_envelope
parse_upstream_error_detail x body plain =
    sanitized x (unwrap_error_detail x (parse_error_envelope x body plain))

abbrev pub context_limit_codes : List String
context_limit_codes =
    "context_length_exceeded" ∷ "context_window_exceeded" ∷ "input_too_long" ∷ "prompt_too_long"
    ∷ []

abbrev pub context_limit_phrases : List String
context_limit_phrases =
    "maximum context length" ∷ "context length exceeded" ∷ "exceeds the context window"
    ∷ "exceeded the context window" ∷ "context window exceeded" ∷ "input is too long"
    ∷ "prompt is too long" ∷ []

unfoldable pub one_of : String → List String → Bool
one_of s [] = false
one_of s (c ∷ cs) = str_eq s c || one_of s cs

unfoldable pub mentions : Texts → String → List String → Bool
mentions x s [] = false
mentions x s (p ∷ ps) = x.contains s p || mentions x s ps

unfoldable pub is_context_limit_error : Texts → ErrorDetail → Bool
unfolding one_of mentions
is_context_limit_error x d =
    one_of (x.lower (x.trim d.code)) context_limit_codes
    || mentions x (x.lower d.message) context_limit_phrases

unfoldable pub is_reasoning_roundtrip_error : Texts → ErrorDetail → Bool
is_reasoning_roundtrip_error x d =
    let message = x.lower d.message in
    x.contains message "reasoning_content" && x.contains message "must be passed back"

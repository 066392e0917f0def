-- ===== src/Template/Filters.antt =====
-- database_utils/utils/playbook_template.py: the filters and `_apply`.
use models_utils.Prelude.{
  ℕ, zero, suc, ◌+◌, ◌-◌, ◌*◌, Bool, true, false, ◌&&◌, ◌||◌, Option, none, some, List, [], ◌∷◌,
  ◌++◌, leb, nat_beq, Text, codes, ◌==◌, text_eq, length, take, drop, replicate, keep_if,
  if◌then◌else◌,
}
use models_utils.Prelude.Int.{ℤ, pos, negsuc}
use models_utils.Expr.Codes.{is_prefix}
use models_utils.Policy.Strings.{strip}
use models_utils.Template.Errors.{
  Filter, upper, lower, trim, alnum, replace, truncate, last, pad_left, mac, Result, ok, raised,
  type_error, empty_replace, not_whole, out_of_bounds, long_fill, bad_style, not_mac, long_output,
  max_output, ◌>>=◌, ◌>>◌, require, choose,
}

-- `str.upper` and `str.lower`, which follow the Unicode tables of the interpreter.
pub record Casing : Type 0 where
  pub upper_case : Text → Text
  pub lower_case : Text → Text

-- The zeros of the decimal digits, category Nd of Unicode 15.
abbrev digit_zeros : List ℕ
digit_zeros =
    0x30 ∷ 0x660 ∷ 0x6f0 ∷ 0x7c0 ∷ 0x966 ∷ 0x9e6 ∷ 0xa66 ∷ 0xae6 ∷ 0xb66 ∷ 0xbe6 ∷ 0xc66 ∷ 0xce6
    ∷ 0xd66 ∷ 0xde6 ∷ 0xe50 ∷ 0xed0 ∷ 0xf20 ∷ 0x1040 ∷ 0x1090 ∷ 0x17e0 ∷ 0x1810 ∷ 0x1946 ∷ 0x19d0
    ∷ 0x1a80 ∷ 0x1a90 ∷ 0x1b50 ∷ 0x1bb0 ∷ 0x1c40 ∷ 0x1c50 ∷ 0xa620 ∷ 0xa8d0 ∷ 0xa900 ∷ 0xa9d0
    ∷ 0xa9f0 ∷ 0xaa50 ∷ 0xabf0 ∷ 0xff10 ∷ 0x104a0 ∷ 0x10d30 ∷ 0x11066 ∷ 0x110f0 ∷ 0x11136 ∷ 0x111d0
    ∷ 0x112f0 ∷ 0x11450 ∷ 0x114d0 ∷ 0x11650 ∷ 0x116c0 ∷ 0x11730 ∷ 0x118e0 ∷ 0x11950 ∷ 0x11c50
    ∷ 0x11d50 ∷ 0x11da0 ∷ 0x11f50 ∷ 0x16a60 ∷ 0x16ac0 ∷ 0x16b50 ∷ 0x1d7ce ∷ 0x1d7d8 ∷ 0x1d7e2
    ∷ 0x1d7ec ∷ 0x1d7f6 ∷ 0x1e140 ∷ 0x1e2f0 ∷ 0x1e4f0 ∷ 0x1e950 ∷ 0x1fbf0 ∷ []

digit_from : List ℕ → ℕ → Option ℕ
digit_from [] c = none
digit_from (z ∷ zs) c = if leb z c && leb c (z + 9) then some (c - z) else digit_from zs c

-- The value of a decimal digit, `\d`.
unfoldable pub digit? : ℕ → Option ℕ
unfolding digit_from
digit? c = digit_from digit_zeros c

-- Digits with single underscores between them; the flag tells that a digit is in front.
unfoldable pub whole_number : ℕ → Bool → Text → Option ℕ
unfolding digit?
whole_number acc true [] = some acc
whole_number acc false [] = none
whole_number acc after (c ∷ s) = elim (digit? c) [
  | some d ↦ whole_number (acc * 10 + d) true s
  | none ↦ elim (nat_beq c b'_' && after) [ true ↦ whole_number acc false s | false ↦ none ]
]

abbrev negated : ℕ → ℤ
negated zero = pos 0
negated (suc n) = negsuc n

abbrev signed : (ℕ → ℤ) → Option ℕ → Option ℤ
signed f none = none
signed f (some n) = some (f n)

unfoldable pub signed_number : Text → Option ℤ
unfolding whole_number
signed_number [] = none
signed_number (c ∷ s) =
    if nat_beq c b'-'
    then signed negated (whole_number 0 false s)
    else if nat_beq c b'+'
    then signed pos (whole_number 0 false s)
    else signed pos (whole_number 0 false (c ∷ s))

-- `int(raw)`; none is the ValueError
unfoldable pub int_of_text : Text → Option ℤ
unfolding strip signed_number
int_of_text raw = signed_number (strip raw)

unfoldable pub within : Filter → Text → ℕ → ℕ → ℤ → Result ℕ
within f raw low high (pos n) =
    if leb low n && leb n high then ok n else raised (out_of_bounds f raw)
within f raw low high (negsuc n) = raised (out_of_bounds f raw)

-- `_int_arg`, whose bounds are positive
unfoldable pub int_arg : Filter → Text → ℕ → ℕ → Result ℕ
unfolding int_of_text within
int_arg f raw low high = choose (int_of_text raw) (raised (not_whole f raw)) (within f raw low high)

-- `s.replace(old, new)` for an `old` that is not empty: `skip` characters are already replaced.
unfoldable pub replace_all : ℕ → Text → Text → Text → Text
replace_all skip old new [] = []
replace_all (suc skip) old new (c ∷ s) = replace_all skip old new s
replace_all zero old new (c ∷ s) = elim (is_prefix old (c ∷ s)) [
  | true ↦ new ++ replace_all (length old - 1) old new s
  | false ↦ c ∷ replace_all 0 old new s
]

-- `sep.join` of the pieces of `size` characters, with `left` of them until the next separator.
unfoldable pub spaced : Text → ℕ → ℕ → Text → Text
spaced sep size left [] = []
spaced sep size zero (c ∷ s) = sep ++ c ∷ spaced sep size (size - 1) s
spaced sep size (suc left) (c ∷ s) = c ∷ spaced sep size left s

abbrev pub is_hex : ℕ → Bool
is_hex c = (leb b'0' c && leb c b'9') || ((leb b'A' c && leb c b'F') || (leb b'a' c && leb c b'f'))

abbrev pub is_alnum : ℕ → Bool
is_alnum c =
    (leb b'A' c && leb c b'Z')
    || ((leb b'a' c && leb c b'z')
        || ((leb b'0' c && leb c b'9') || (nat_beq c b'_' || nat_beq c b'-')))

-- `upper` and `lower` on hexadecimal digits
abbrev pub hex_upper : ℕ → ℕ
hex_upper c = if leb b'a' c then c - 32 else c

abbrev pub hex_lower : ℕ → ℕ
hex_lower c = if leb b'A' c && leb c b'F' then c + 32 else c

abbrev pub each : (ℕ → ℕ) → Text → Text
each f [] = []
each f (c ∷ s) = f c ∷ each f s

pub data MacStyle : Type 0 where
  colon dash dot bare : MacStyle

-- `_MAC_STYLES`
unfoldable pub mac_style? : Text → Option MacStyle
mac_style? s =
    if s == codes "colon"
    then some colon
    else if s == codes "dash"
    then some dash
    else if s == codes "dot"
    then some dot
    else if s == codes "bare"
    then some bare
    else none

unfoldable pub mac_text : MacStyle → Text → Text
unfolding spaced
mac_text dot digits = spaced (codes ".") 4 4 (each hex_lower digits)
mac_text bare digits = each hex_upper digits
mac_text colon digits = spaced (codes ":") 2 2 (each hex_upper digits)
mac_text dash digits = spaced (codes "-") 2 2 (each hex_upper digits)

-- `_f_mac`
unfoldable pub mac_filter : Text → Text → Result Text
unfolding mac_style? mac_text
mac_filter s style = choose (mac_style? style) (raised (bad_style style)) λ m.
    let digits = keep_if is_hex s in
    if nat_beq (length digits) 12 then ok (mac_text m digits) else raised (not_mac s)

-- `s.rjust(width, fill)`
abbrev pub right_justified : Text → ℕ → ℕ → Text
right_justified s width fill = replicate (width - length s) fill ++ s

-- `_f_pad_left`
unfoldable pub pad_left_filter : Text → Text → Text → Result Text
unfolding int_arg
pad_left_filter s width (fill ∷ []) = do
  w ← int_arg pad_left width 1 64
  ok (right_justified s w fill)
pad_left_filter s width _ = raised long_fill

-- `FILTERS[fname].fn(value, *args)`; `default` has no function.
unfoldable pub run_filter : Casing → Filter → Text → List Text → Result Text
unfolding strip replace_all int_arg mac_filter pad_left_filter
run_filter c upper s [] = ok (c.upper_case s)
run_filter c lower s [] = ok (c.lower_case s)
run_filter c trim s [] = ok (strip s)
run_filter c alnum s [] = ok (keep_if is_alnum s)
run_filter c replace s ([] ∷ new ∷ []) = raised empty_replace
run_filter c replace s ((o ∷ old) ∷ new ∷ []) = ok (replace_all 0 (o ∷ old) new s)
run_filter c truncate s (n ∷ []) = do k ← int_arg truncate n 1 512; ok (take k s)
run_filter c last s (n ∷ []) = do k ← int_arg last n 1 512; ok (drop (length s - k) s)
run_filter c pad_left s (width ∷ []) = pad_left_filter s width (codes " ")
run_filter c pad_left s (width ∷ fill ∷ []) = pad_left_filter s width fill
run_filter c mac s (style ∷ []) = mac_filter s style
run_filter c _ s _ = type_error

-- `_apply`
unfoldable pub apply : Casing → Text → Filter → List Text → Result Text
unfolding run_filter
apply c value f args = do
  out ← run_filter c f value args
  require (leb (length out) max_output) (long_output f)
  ok out

-- ===== src/Template/Captures.antt =====
-- database_utils/utils/playbook_render.py: the charset gate of captures, and their merge into the
-- variables of a later child.
use models_utils.Prelude.{
  ℕ, Bool, true, false, ◌&&◌, ◌||◌, Option, none, some, List, [], ◌∷◌, ◌++◌, leb, nat_beq, Text,
  codes, ◌==◌, text_eq, assign, length, take, all, any, is_some, if◌then◌else◌,
}
use models_utils.Expr.Eval.{str}
use models_utils.Expr.Block.{Variables}
use models_utils.Expr.Lexer.{push}
use models_utils.Template.Filters.{digit?}
use models_utils.Template.Parser.{is_bare, span}

-- [A-Za-z0-9_.:/+-]
abbrev pub in_charset : ℕ → Bool
in_charset c = is_bare c || (nat_beq c b':' || nat_beq c b'/')

-- `_CAPTURE_CHARSET.fullmatch`
unfoldable pub is_plain : Text → Bool
is_plain s = all in_charset s && leb (length s) 128

-- `\d`
unfoldable pub is_decimal : ℕ → Bool
unfolding digit?
is_decimal c = is_some (digit? c)

-- `\d+` up to the end
abbrev pub all_decimal : Text → Bool
all_decimal [] = false
all_decimal (c ∷ s) = all is_decimal (c ∷ s)

-- What may follow the digits in front: nothing, or a point and digits.
abbrev pub is_fraction : Text → Bool
is_fraction [] = true
is_fraction (c ∷ s) = nat_beq c b'.' && all_decimal s

abbrev pub is_unsigned : Text × Text → Bool
is_unsigned ([], rest) = false
is_unsigned (d ∷ ds, rest) = is_fraction rest

abbrev pub drop_minus : Text → Text
drop_minus [] = []
drop_minus (c ∷ s) = if nat_beq c b'-' then s else c ∷ s

-- `-?\d+(?:\.\d+)?`. Decimal reads each such text.
unfoldable pub is_number_text : Text → Bool
unfolding is_decimal span
is_number_text s = is_unsigned (span is_decimal (drop_minus s))

-- `_gate_capture` on `str(value)`
unfoldable pub gate_capture : Text → Text → Option Text
unfolding is_plain is_number_text
gate_capture s kind =
    if (if kind == codes "number" then is_number_text s else is_plain s) then some s else none

abbrev pub max_capture_items : ℕ
max_capture_items = 50

abbrev pub add_item : Option Text → Option (List Text) → Option (List Text)
add_item (some s) (some out) = some (s ∷ out)
add_item _ _ = none

unfoldable pub gate_items : List Text → Option (List Text)
unfolding gate_capture
gate_items [] = some []
gate_items (s ∷ ss) = add_item (gate_capture s (codes "text")) (gate_items ss)

-- `"\n".join`
abbrev pub join_lines : List Text → Text
join_lines [] = []
join_lines (s ∷ []) = s
join_lines (s ∷ t ∷ ts) = s ++ b'\n' ∷ join_lines (t ∷ ts)

abbrev pub joined : Option (List Text) → Option Text
joined none = none
joined (some ss) = some (join_lines ss)

-- `gate_capture_items`, with the limit of its one caller
unfoldable pub gate_capture_items : List Text → Option Text
unfolding gate_items
gate_capture_items values = joined (gate_items (take max_capture_items values))

-- `split("\n")`
unfoldable pub split_lines : Text → List Text
split_lines [] = [] ∷ []
split_lines (c ∷ s) =
    let lines = split_lines s in if nat_beq c b'\n' then [] ∷ lines else push c lines

-- A capture of a step, of all the phases in their order.
pub record CaptureSpec : Type 0 where
  pub key : Text
  pub kind : Option Text
  pub is_multi : Bool

-- A value of the captures: its `str()`, and whether it is truthy.
pub record Captured : Type 0 where
  pub shown : Text
  pub truthy : Bool

abbrev pub or_text : Option Text → Text
or_text none = codes "text"
or_text (some []) = codes "text"
or_text (some (c ∷ s)) = c ∷ s

-- `kinds.get(key, "text")`: the last one of a key counts
unfoldable pub kind_of : List CaptureSpec → Text → Text → Text
kind_of [] key kind = kind
kind_of (c ∷ cs) key kind = kind_of cs key (if c.key == key then or_text c.kind else kind)

-- `key in multi`
unfoldable pub takes_all : List CaptureSpec → Text → Bool
takes_all specs key = any (λ (c : CaptureSpec). c.key == key && c.is_multi) specs

-- The gate of one value.
unfoldable pub gate : List CaptureSpec → Text → Captured → Option Text
unfolding gate_capture_items split_lines gate_capture kind_of takes_all
gate specs key v =
    if takes_all specs key
    then (if v.truthy then gate_capture_items (split_lines v.shown) else some [])
    else gate_capture v.shown (kind_of specs key (codes "text"))

abbrev pub capture_token : Text → Text
capture_token key = codes "capture." ++ key

abbrev pub keep :
    Text → Option Text → Variables × List (Text × Text) → Variables × List (Text × Text)
keep key none r = r
keep key (some s) (resolved, kept) =
    (assign resolved (capture_token key) (str s), kept ++ (key, s) ∷ [])

-- The loop of `merge_captures`, on what is resolved and kept so far. The keys of the captures are
-- distinct.
unfoldable pub merge_from :
    List CaptureSpec
    → List (Text × Captured)
    → Variables × List (Text × Text)
    → Variables × List (Text × Text)
unfolding gate
merge_from specs [] r = r
merge_from specs ((key, v) ∷ more) r = merge_from specs more (keep key (gate specs key v) r)

unfoldable pub merge_captures :
    Variables → List (Text × Captured) → List CaptureSpec → Variables × List (Text × Text)
unfolding merge_from
merge_captures resolved captures specs = merge_from specs captures (resolved, [])

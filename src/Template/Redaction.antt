-- ===== src/Template/Redaction.antt =====
-- database_utils/utils/playbook_render.py: the redaction of secrets.
use models_utils.Prelude.{
  ℕ, Bool, not, List, [], ◌∷◌, leb, nat_eq, Text, codes, ◌==◌, text_eq, length, contains, keep_if,
  if◌then◌else◌,
}
use models_utils.Expr.Codes.{is_infix}
use models_utils.Policy.Strings.{strip}
use models_utils.Template.Filters.{replace_all}

mutual
  -- A JSON value; what is no string, dict or list is `other`.
  pub data Json : Type 0 where
    text : Text → Json
    array : Items → Json
    object : Fields → Json
    other : Json

  pub data Items : Type 0 where
    no_items : Items
    item : Json → Items → Items

  pub data Fields : Type 0 where
    no_fields : Fields
    field : Text → Json → Fields → Fields

-- The characters that `re.escape` escapes.
abbrev pub special : List ℕ
special =
    b'(' ∷ b')' ∷ b'[' ∷ b']' ∷ b'{' ∷ b'}' ∷ b'?' ∷ b'*' ∷ b'+' ∷ b'-' ∷ b'|' ∷ b'^' ∷ b'$' ∷ b'\\'
    ∷ b'.' ∷ b'&' ∷ b'~' ∷ b'#' ∷ b' ' ∷ 9 ∷ 10 ∷ 13 ∷ 11 ∷ 12 ∷ []

-- `re.escape`
unfoldable pub escape : Text → Text
escape [] = []
escape (c ∷ s) = let rest = escape s in if contains special c then b'\\' ∷ c ∷ rest else c ∷ rest

-- Longer texts come first; the order of those of one length is that of the set, which is unknown.
abbrev pub insert_by_length : Text → List Text → List Text
insert_by_length v [] = v ∷ []
insert_by_length v (w ∷ ws) =
    let later = w ∷ insert_by_length v ws in if leb (length w) (length v) then v ∷ w ∷ ws else later

unfoldable pub variants : List Text → List Text
unfolding escape
variants [] = []
variants (s ∷ ss) = insert_by_length s (insert_by_length (escape s) (variants ss))

abbrev pub stars : Text
stars = codes "***"

-- `s and s.strip()`
unfoldable pub is_secret : Text → Bool
unfolding strip
is_secret s = not (strip s == [])

abbrev pub redact_one : Text → Text → Text
redact_one secret out = if is_infix secret out then replace_all 0 secret stars out else out

-- The loop of `_redact` on a string.
unfoldable pub redact_text : List Text → Text → Text
unfolding replace_all
redact_text [] out = out
redact_text (v ∷ vs) out = redact_text vs (redact_one v out)

-- `_redact`
unfoldable mutual
  unfolding redact_text

  pub redact : List Text → Json → Json
  redact vs (text s) = text (redact_text vs s)
  redact vs (array xs) = array (redact_items vs xs)
  redact vs (object fs) = object (redact_fields vs fs)
  redact vs other = other

  pub redact_items : List Text → Items → Items
  redact_items vs no_items = no_items
  redact_items vs (item x xs) = item (redact vs x) (redact_items vs xs)

  pub redact_fields : List Text → Fields → Fields
  redact_fields vs no_fields = no_fields
  redact_fields vs (field k x fs) = field k (redact vs x) (redact_fields vs fs)

unfoldable pub redact_secrets : Json → List Text → Json
unfolding variants is_secret redact
redact_secrets value secrets = redact (variants (keep_if is_secret secrets)) value

-- ===== src/Resolution/Tokens.antt =====
-- database_utils/utils/provisioning_resolution.py: what a playbook reads, by `_step_tokens`,
-- `_computed_names` and the two patterns on the dumped definition.
use models_utils.Prelude.{
  ℕ, zero, suc, Bool, true, false, ◌&&◌, ◌||◌, Option, none, some, List, [], ◌∷◌, ◌++◌, nat_beq,
  Text, codes, ◌==◌, text_eq, contains, length, any, take, drop, if◌then◌else◌,
}
use models_utils.Expr.Codes.{ok, is_prefix}
use models_utils.Expr.Eval.{Value, str}
use models_utils.Expr.Lexer.{split_dots}
use models_utils.Expr.Parser.{parse, names}
use models_utils.Expr.Block.{Entry, Computed, entries, not_a_list}
use models_utils.Policy.Strings.{drop_spaces}
use models_utils.Template.Parser.{is_quote, span, starts, plain_name, var_head}
use models_utils.Template.Render.{Piece, char, token, pieces, in_body, token_text}
use models_utils.Resolution.Rows.{PlaybookRow}

-- A bar or the end behind the head of a token.
abbrev pub before_bar : Option (Text × Text) → Option Text
before_bar none = none
before_bar (some (name, [])) = some name
before_bar (some (name, c ∷ s)) = if nat_beq c b'|' then some name else none

-- `_TOKEN_HEAD.match`, which gives the name
unfoldable pub token_head : Text → Option Text
unfolding var_head
token_head body = before_bar (var_head body)

abbrev pub one_more : Option ℕ → Option ℕ
one_more none = none
one_more (some n) = some (suc n)

-- The length of a quoted argument behind its opening quote, with the closing one. The flag tells
-- that a backslash is in front.
unfoldable pub quoted_length : ℕ → Bool → Text → Option ℕ
quoted_length quote after [] = none
quoted_length quote true (c ∷ s) = one_more (quoted_length quote false s)
quoted_length quote false (c ∷ s) =
    let longer = one_more (quoted_length quote (nat_beq c b'\\') s) in
    if nat_beq c quote then some 1 else longer

-- `_QUOTED_ARG.sub("", body)`: `skip` characters belong to the last match.
unfoldable pub without_quoted : ℕ → Text → Text
unfolding quoted_length
without_quoted skip [] = []
without_quoted (suc skip) (c ∷ s) = without_quoted skip s
without_quoted zero (c ∷ s) = elim (if is_quote c then quoted_length c false s else none) [
  | none ↦ c ∷ without_quoted 0 s
  | some n ↦ without_quoted n s
]

-- What is behind a prefix.
abbrev pub after_prefix : Text → Text → Option Text
after_prefix p s = if is_prefix p s then some (drop (length p) s) else none

abbrev pub colon_after : Option Text → Bool
colon_after none = false
colon_after (some s) = starts (nat_beq b':') (drop_spaces s)

-- `_DEFAULT_FILTER.search`
unfoldable pub has_default_in : Text → Bool
has_default_in [] = false
has_default_in (c ∷ s) =
    (nat_beq c b'|' && colon_after (after_prefix (codes "default") (drop_spaces s)))
    || has_default_in s

-- `_has_default_filter`
unfoldable pub has_default_filter : Text → Bool
unfolding without_quoted has_default_in
has_default_filter body = has_default_in (without_quoted 0 body)

-- The tokens with their default flags, and what is malformed.
pub record Tokens : Type 0 where
  pub tokens : List (Text × Bool)
  pub malformed : List Text

abbrev pub add_token : Text → Option Text → Tokens → Tokens
add_token body none r = record r { malformed = token_text body ∷ r.malformed }
add_token body (some name) r = record r { tokens = (name, has_default_filter body) ∷ r.tokens }

-- The matches of TOKEN_SHAPE in one text.
unfoldable pub shaped : List Piece → Tokens
unfolding token_head has_default_filter
shaped [] = record { tokens = []; malformed = [] }
shaped (char c ∷ ps) = shaped ps
shaped (token body ∷ ps) = add_token body (token_head body) (shaped ps)

-- `TOKEN_SHAPE.sub("", text)`
abbrev pub rest_of : List Piece → Text
rest_of [] = []
rest_of (char c ∷ ps) = c ∷ rest_of ps
rest_of (token body ∷ ps) = rest_of ps

-- The matches of `\{\{` from left to right with 40 characters each: `skip` is 1 in a match.
unfoldable pub residual : ℕ → Text → List Text
residual skip [] = []
residual (suc skip) (c ∷ s) = residual skip s
residual zero (c ∷ s) =
    let found = take 40 (c ∷ s) ∷ residual 1 s in
    let rest = residual 0 s in if is_prefix (codes "{{") (c ∷ s) then found else rest

abbrev pub text_tokens : List Piece → Tokens
text_tokens ps =
    let t = shaped ps in record t { malformed = t.malformed ++ residual 0 (rest_of ps) }

abbrev pub join_tokens : Tokens → Tokens → Tokens
join_tokens a b = record { tokens = a.tokens ++ b.tokens; malformed = a.malformed ++ b.malformed }

-- `_step_tokens`, on the strings of the fields.
unfoldable pub step_tokens : List Text → Tokens
unfolding pieces shaped residual
step_tokens [] = record { tokens = []; malformed = [] }
step_tokens (t ∷ ts) = join_tokens (text_tokens (pieces 0 t)) (step_tokens ts)

abbrev pub names_in : Value → Option (List Text)
names_in (str s) = elim (parse s) [ ok tree ↦ some (names tree) | _ ↦ none ]
names_in _ = none

abbrev pub join_names : Option (List Text) → Option (List Text) → Option (List Text)
join_names (some a) (some b) = some (a ++ b)
join_names _ _ = none

abbrev pub entry_names : List Entry → Option (List Text)
entry_names [] = some []
entry_names (e ∷ es) = join_names (names_in e.expr) (entry_names es)

-- `_computed_names`, with repeated names
unfoldable pub computed_names : Computed → Option (List Text)
unfolding parse names
computed_names (entries es) = entry_names es
computed_names not_a_list = none

-- `_FILTER_SUFFIX` and the braces
unfoldable pub closes_token : Text → Bool
unfolding span
closes_token s =
    let r = drop_spaces s in
    is_prefix (codes "}}") r
    || (starts (nat_beq b'|') r && is_prefix (codes "}}") (drop_spaces (span in_body (drop 1 r)).1))

-- The pattern of a token at the head of a text, with the reader of its name.
abbrev pub opens_with : (Text → Option Text) → Text → Bool
opens_with read s = elim (after_prefix (codes "{{") s) [
  | none ↦ false
  | some r ↦ elim (read (drop_spaces r)) [ none ↦ false | some rest ↦ closes_token rest ]
]

-- `re.search`
unfoldable pub search_token : (Text → Option Text) → Text → Bool
unfolding closes_token
search_token read [] = false
search_token read (c ∷ s) = opens_with read (c ∷ s) || search_token read s

-- `\.[a-z][a-z0-9_]*`
abbrev pub after_segment : Option Text → Option Text
after_segment (some (c ∷ s)) =
    if nat_beq c b'.' then elim (plain_name s) [ none ↦ none | some r ↦ some r.1 ] else none
after_segment _ = none

abbrev pub device_words : List Text
device_words = codes "device" ∷ codes "cpe" ∷ codes "old_cpe" ∷ []

-- The name of `_DEVICE_VARIABLE_PATTERN`
unfoldable pub device_variable : Text → Option Text
unfolding plain_name
device_variable s = elim (plain_name s) [
  | none ↦ none
  | some (word, r) ↦
      if contains device_words word
      then after_segment (some r)
      else if word == codes "path"
      then after_segment (after_segment (some r))
      else none
]

-- A set that may be unknown has what its test says, or anything.
abbrev pub or_unknown : Option (List Text) → (Text → Bool) → Bool
or_unknown none p = true
or_unknown (some ns) p = any p ns

-- `_playbook_references_token`
unfoldable pub playbook_references_token : PlaybookRow → Text → Bool
unfolding search_token computed_names
playbook_references_token pb name =
    search_token (after_prefix name) pb.blob || or_unknown (computed_names pb.computed) (◌==◌ name)

abbrev pub device_namespaces : List Text
device_namespaces = device_words ++ codes "path" ∷ []

-- The part of a name before its first point.
unfoldable pub namespace_of : Text → Text
unfolding split_dots
namespace_of name = elim (split_dots name) [ [] ↦ [] | s ∷ ss ↦ s ]

-- `_playbook_references_device_variables`
unfoldable pub playbook_references_device_variables : PlaybookRow → Bool
unfolding search_token device_variable computed_names namespace_of
playbook_references_device_variables pb =
    search_token device_variable pb.blob
    || or_unknown (computed_names pb.computed) (λ n. contains device_namespaces (namespace_of n))

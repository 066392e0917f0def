-- ===== src/Template/Parser.antt =====
-- database_utils/utils/playbook_template.py: `parse_body` and `_parse_args`.
use models_utils.Prelude.{
  ℕ, zero, suc, Bool, true, false, not, ◌&&◌, ◌||◌, Option, none, some, List, [], ◌∷◌, ◌++◌, leb,
  nat_beq, Text, length, if◌then◌else◌,
}
use models_utils.Expr.Codes.{is_secret_name}
use models_utils.Template.Errors.{
  Filter, filter?, min_args, max_args, max_filters, max_arg_len, Result, ok, raised, out_of_fuel,
  not_a_reference, no_filter_name, too_many_filters, empty_argument, unterminated,
  dangling_backslash, argument_too_long, after_variable, invalid_escape, in_argument,
  after_argument, unknown_filter, secret_filtered, bad_arity, ◌>>=◌, ◌>>◌, require, choose,
}
use models_utils.Template.Filters.{digit?}

pub record Expr : Type 0 where
  pub name : Text
  pub filters : List (Filter × List Text)

abbrev pub is_blank : ℕ → Bool
is_blank c = nat_beq c b' ' || nat_beq c b'\t'

abbrev pub is_lower : ℕ → Bool
is_lower c = leb b'a' c && leb c b'z'

-- [a-z0-9_]
abbrev pub is_part : ℕ → Bool
is_part c = is_lower c || ((leb b'0' c && leb c b'9') || nat_beq c b'_')

-- [A-Za-z0-9_.+\-]
abbrev pub is_bare : ℕ → Bool
is_bare c =
    is_part c
    || ((leb b'A' c && leb c b'Z') || (nat_beq c b'.' || (nat_beq c b'+' || nat_beq c b'-')))

-- `_skip_ws`
unfoldable pub skip_ws : Text → Text
skip_ws [] = []
skip_ws (c ∷ s) = let rest = skip_ws s in if is_blank c then rest else c ∷ s

-- A greedy run, and the text behind it.
unfoldable pub span : (ℕ → Bool) → Text → Text × Text
span p [] = ([], [])
span p (c ∷ s) = let (xs, r) = span p s in if p c then (c ∷ xs, r) else ([], c ∷ s)

abbrev pub starts : (ℕ → Bool) → Text → Bool
starts p [] = false
starts p (c ∷ s) = p c

abbrev pub with_char : ℕ → Text × Text → Text × Text
with_char c (xs, r) = (c ∷ xs, r)

-- The rest of a name inside a segment: [a-z0-9_]*(?:\.NAME)*
unfoldable pub inside_name : Text → Text × Text
inside_name [] = ([], [])
inside_name (c ∷ s) =
    let more = with_char c (inside_name s) in
    if is_part c then more else if nat_beq c b'.' && starts is_lower s then more else ([], c ∷ s)

-- The rest of a name behind its index: (?:\.NAME)*
unfoldable pub after_index : Text → Text × Text
unfolding inside_name
after_index [] = ([], [])
after_index (c ∷ s) =
    if nat_beq c b'.' && starts is_lower s then with_char c (inside_name s) else ([], c ∷ s)

-- \d{1,3}\] : the digits with the bracket, `left` digits at most
unfoldable pub index_digits : ℕ → Bool → Text → Option (Text × Text)
unfolding digit?
index_digits left after [] = none
index_digits left after (c ∷ s) = if nat_beq c b']' && after then some (c ∷ [], s) else elim left [
  | zero ↦ none
  | suc n ↦ elim (digit? c) [
    | none ↦ none
    | some d ↦ elim (index_digits n true s) [ none ↦ none | some r ↦ some (with_char c r) ]
  ]
]

-- (?:\[\d{1,3}\])?(?:\.NAME)* behind the first segment, whose part before the bracket is read by
-- `first_name`.
unfoldable pub after_first : Text → Text × Text
unfolding after_index index_digits
after_first [] = ([], [])
after_first (c ∷ s) =
    if nat_beq c b'['
    then elim (index_digits 3 false s) [
      | none ↦ ([], c ∷ s)
      | some (index, r) ↦ let (xs, rest) = after_index r in (c ∷ index ++ xs, rest)
    ]
    else after_index (c ∷ s)

abbrev pub append_name : Text → Text × Text → Text × Text
append_name xs (ys, r) = (xs ++ ys, r)

-- `_VAR_NAME` at the head of a text
unfoldable pub var_name : Text → Option (Text × Text)
unfolding span after_first
var_name [] = none
var_name (c ∷ s) =
    let (xs, r) = span is_part (c ∷ s) in
    if is_lower c then some (append_name xs (after_first r)) else none

-- `_NAME` at the head of a text
unfoldable pub plain_name : Text → Option (Text × Text)
unfolding span
plain_name [] = none
plain_name (c ∷ s) = if is_lower c then some (span is_part (c ∷ s)) else none

abbrev pub trim_after : Option (Text × Text) → Option (Text × Text)
trim_after none = none
trim_after (some (xs, r)) = some (xs, skip_ws r)

-- `_VAR_HEAD.match` and `_FILTER_NAME.match`
unfoldable pub var_head : Text → Option (Text × Text)
unfolding skip_ws var_name
var_head s = trim_after (var_name (skip_ws s))

unfoldable pub filter_name : Text → Option (Text × Text)
unfolding skip_ws plain_name
filter_name s = trim_after (plain_name (skip_ws s))

-- `_ESCAPES`
unfoldable pub escape? : ℕ → Option ℕ
escape? c =
    if nat_beq c b'\\' || (nat_beq c b'\'' || nat_beq c b'"')
    then some c
    else if nat_beq c b'n'
    then some b'\n'
    else if nat_beq c b't'
    then some b'\t'
    else if nat_beq c b'r'
    then some b'\r'
    else none

abbrev pub and_char : ℕ → Result (Text × Text) → Result (Text × Text)
and_char c m = m >>= λ r. ok (with_char c r)

-- The inner loop of `_parse_args` behind the quote. The flag tells that a backslash is in front.
unfoldable pub quoted : ℕ → Bool → Text → Result (Text × Text)
unfolding escape?
quoted quote true [] = raised dangling_backslash
quoted quote false [] = raised unterminated
quoted quote true (c ∷ s) =
    choose (escape? c) (raised (invalid_escape c)) λ d. and_char d (quoted quote false s)
quoted quote false (c ∷ s) =
    let escaped = quoted quote true s in
    let copied = and_char c (quoted quote false s) in
    if nat_beq c b'\\' then escaped else if nat_beq c quote then ok ([], s) else copied

abbrev pub is_quote : ℕ → Bool
is_quote c = nat_beq c b'\'' || nat_beq c b'"'

unfoldable pub bare : ℕ → Text → Text × Text → Result (Text × Text)
bare c s ([], r) = raised (in_argument c)
bare c s (x ∷ xs, r) = ok (x ∷ xs, r)

-- One argument at a character that is no blank.
unfoldable pub argument : Text → Result (Text × Text)
unfolding quoted bare span
argument [] = raised empty_argument
argument (c ∷ s) =
    if nat_beq c b'|' || nat_beq c b','
    then raised empty_argument
    else if is_quote c
    then quoted c false s
    else bare c s (span is_bare (c ∷ s))

-- The end of a round of `_parse_args`: another argument, or the end of the arguments.
unfoldable pub next_argument :
    Text → Text → (Text → Result (List Text × Text)) → Result (List Text × Text)
next_argument arg [] more = ok (arg ∷ [], [])
next_argument arg (c ∷ s) more =
    if nat_beq c b','
    then (more s >>= λ (p : List Text × Text). ok (arg ∷ p.0, p.1))
    else if nat_beq c b'|'
    then ok (arg ∷ [], c ∷ s)
    else raised (after_argument c)

-- `_parse_args`
unfoldable pub parse_args : ℕ → Text → Result (List Text × Text)
unfolding skip_ws argument next_argument
parse_args zero s = out_of_fuel
parse_args (suc f) s = do
  (arg, r) ← argument (skip_ws s)
  require (leb (length arg) max_arg_len) argument_too_long
  next_argument arg (skip_ws r) (parse_args f)

-- The arguments behind a filter's name, if there is a colon.
unfoldable pub filter_args : Text → Result (List Text × Text)
unfolding parse_args
filter_args [] = ok ([], [])
filter_args (c ∷ s) = if nat_beq c b':' then parse_args (suc (length s)) s else ok ([], c ∷ s)

abbrev pub takes : Filter → List Text → Bool
takes f args = leb (min_args f) (length args) && leb (length args) (max_args f)

-- One filter behind the bar, with `n` filters in front, and the text behind it.
unfoldable pub one_filter : Text → ℕ → Text → Result ((Filter × List Text) × Text)
unfolding filter_name filter? filter_args
one_filter name n s = do
  (fname, r) ← choose (filter_name s) (raised no_filter_name) ok
  f ← choose (filter? fname) (raised (unknown_filter fname)) ok
  (args, rest) ← filter_args r
  require (takes f args) (bad_arity f (length args))
  require (not (is_secret_name name)) (secret_filtered name)
  require (leb (suc n) max_filters) too_many_filters
  ok ((f, args), rest)

-- The loop of `parse_body`, with `n` filters in front.
unfoldable pub parse_filters : ℕ → Text → ℕ → Text → Result (List (Filter × List Text))
unfolding one_filter
parse_filters zero name n s = out_of_fuel
parse_filters (suc f) name n [] = ok []
parse_filters (suc f) name n (c ∷ s) = do
  require (nat_beq c b'|') (after_variable c)
  (filter, rest) ← one_filter name n s
  more ← parse_filters f name (suc n) rest
  ok (filter ∷ more)

unfoldable pub parse_body : Text → Result Expr
unfolding var_head parse_filters is_secret_name
parse_body body = do
  (name, rest) ← choose (var_head body) (raised not_a_reference) ok
  filters ← parse_filters (suc max_filters) name 0 rest
  ok (record { name = name; filters = filters })

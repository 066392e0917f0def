-- ===== src/Template/Render.antt =====
-- database_utils/utils/playbook_template.py: TOKEN_SHAPE and what goes over its matches.
use models_utils.Prelude.{
  ℕ, zero, suc, ◌+◌, Bool, true, false, not, ◌&&◌, ◌||◌, Option, none, some, List, [], ◌∷◌, ◌++◌,
  leb, nat_beq, Text, codes, ◌==◌, text_eq, nat_eq, contains, length, any, if◌then◌else◌,
}
use models_utils.Policy.Strings.{strip}
use models_utils.Template.Errors.{
  Filter, default, TemplateError, Result, ok, raised, type_error, out_of_fuel, max_body, ◌>>=◌,
}
use models_utils.Template.Filters.{Casing, apply}
use models_utils.Template.Parser.{Expr, parse_body, span}

-- [^{}\n]
abbrev pub in_body : ℕ → Bool
in_body c = not (nat_beq c b'{' || (nat_beq c b'}' || nat_beq c b'\n'))

abbrev pub closes : Text × Text → Option Text
closes (body, c ∷ d ∷ s) =
    if nat_beq c b'}' && (nat_beq d b'}' && leb (length body) max_body) then some body else none
closes (body, _) = none

-- The body of a match of TOKEN_SHAPE at the head of a text.
unfoldable pub token_body : Text → Option Text
unfolding span
token_body (c ∷ d ∷ s) = if nat_beq c b'{' && nat_beq d b'{' then closes (span in_body s) else none
token_body _ = none

-- A text as TOKEN_SHAPE reads it.
pub data Piece : Type 0 where
  char : ℕ → Piece
  token : Text → Piece

-- The matches from left to right: `skip` characters belong to the last one.
unfoldable pub pieces : ℕ → Text → List Piece
unfolding token_body
pieces skip [] = []
pieces (suc skip) (c ∷ s) = pieces skip s
pieces zero (c ∷ s) = elim (token_body (c ∷ s)) [
  | none ↦ char c ∷ pieces 0 s
  | some body ↦ token body ∷ pieces (length body + 3) s
]

-- `match.group(0)`
abbrev pub token_text : Text → Text
token_text body = codes "{{" ++ body ++ codes "}}"

-- The name of a missing variable, or a match and its error.
pub data Problem : Type 0 where
  missing : Text → Problem
  broken : Text → TemplateError → Problem

-- `list(dict.fromkeys(xs))`: a problem is told once for its text. An error is determined by its
-- match and the variables.
abbrev pub same_problem : Problem → Problem → Bool
same_problem (missing a) (missing b) = a == b
same_problem (broken a e) (broken b d) = a == b
same_problem _ _ = false

abbrev pub add_problem : List Problem → Problem → List Problem
add_problem ps p = if any (same_problem p) ps then ps else ps ++ p ∷ []

unfoldable pub once : List Problem → List Problem → List Problem
once seen [] = seen
once seen (p ∷ ps) = once (add_problem seen p) ps

abbrev pub add_name : List Text → Text → List Text
add_name ns n = if contains ns n then ns else ns ++ n ∷ []

unfoldable pub names_once : List Text → List Text → List Text
names_once seen [] = seen
names_once seen (n ∷ ns) = names_once (add_name seen n) ns

abbrev pub name_of : Result Expr → List Text
name_of (ok e) = e.name ∷ []
name_of _ = []

unfoldable pub piece_names : List Piece → List Text
piece_names [] = []
piece_names (char c ∷ ps) = piece_names ps
piece_names (token body ∷ ps) = name_of (parse_body body) ++ piece_names ps

unfoldable pub find_variables : Text → List Text
unfolding pieces piece_names names_once parse_body
find_variables text = names_once [] (piece_names (pieces 0 text))

abbrev pub has_bar : Text → Bool
has_bar body = contains body b'|'

abbrev pub error_of : Text → Result Expr → List Problem
error_of body (raised e) = if has_bar body then broken body e ∷ [] else []
error_of body _ = []

unfoldable pub piece_errors : List Piece → List Problem
piece_errors [] = []
piece_errors (char c ∷ ps) = piece_errors ps
piece_errors (token body ∷ ps) = error_of body (parse_body body) ++ piece_errors ps

unfoldable pub find_template_errors : Text → List Problem
unfolding pieces piece_errors once parse_body
find_template_errors text = once [] (piece_errors (pieces 0 text))

abbrev pub is_default : Filter → Bool
is_default default = true
is_default _ = false

-- `value is None or not value.strip()`
unfoldable pub is_blank_value : Option Text → Bool
unfolding strip
is_blank_value none = true
is_blank_value (some s) = strip s == []

abbrev pub or_default : Option Text → List Text → Result (Option Text)
or_default v (a ∷ args) = ok (if is_blank_value v then some a else v)
or_default v [] = type_error

abbrev pub has_default : List (Filter × List Text) → Bool
has_default fs = any (λ (p : Filter × List Text). is_default p.0) fs

abbrev pub applied : Casing → Filter → List Text → Option Text → Result (Option Text)
applied c f args none = ok none
applied c f args (some v) = apply c v f args >>= λ out. ok (some out)

-- One round of the loop that does not `break`.
unfoldable pub one_step : Casing → Filter → List Text → Option Text → Result (Option Text)
unfolding is_blank_value apply
one_step c f args v = if is_default f then or_default v args else applied c f args v

-- The loop over the filters. `break` is where there is no value and no `default` from here on.
unfoldable pub chain : Casing → List (Filter × List Text) → Option Text → Result (Option Text)
unfolding one_step
chain c [] v = ok v
chain c ((f, args) ∷ fs) none =
    if has_default ((f, args) ∷ fs)
    then (one_step c f args none >>= λ v'. chain c fs v')
    else ok none
chain c ((f, args) ∷ fs) (some v) = one_step c f args (some v) >>= λ v'. chain c fs v'

-- `variables[name]` as a text; none where it is absent or None.
abbrev pub Values : Type 0
Values = Text → Option Text

abbrev pub Rendered : Type 0
Rendered = Text × List Problem

abbrev pub replaced : Text → Text → Result (Option Text) → Result Rendered
replaced body name (ok (some v)) = ok (v, [])
replaced body name (ok none) = ok (token_text body, missing name ∷ [])
replaced body name (raised e) = ok (token_text body, broken body e ∷ [])
replaced body name type_error = type_error
replaced body name out_of_fuel = out_of_fuel

-- `_sub`
unfoldable pub substitute : Casing → Values → Text → Result Expr → Result Rendered
unfolding chain
substitute c values body (ok e) = replaced body e.name (chain c e.filters (values e.name))
substitute c values body (raised e) = ok (token_text body, error_of body (raised e))
substitute c values body type_error = type_error
substitute c values body out_of_fuel = out_of_fuel

abbrev pub join_rendered : Rendered → Rendered → Rendered
join_rendered (s, ps) (t, qs) = (s ++ t, ps ++ qs)

unfoldable pub render_pieces : Casing → Values → List Piece → Result Rendered
unfolding substitute
render_pieces c values [] = ok ([], [])
render_pieces c values (char x ∷ ps) =
    render_pieces c values ps >>= λ r. ok (join_rendered (x ∷ [], []) r)
render_pieces c values (token body ∷ ps) = substitute c values body (parse_body body) >>= λ r.
    render_pieces c values ps >>= λ rs. ok (join_rendered r rs)

-- `render_string`; a template that is None reads as an empty one.
unfoldable pub render_string : Casing → Text → Values → Result Rendered
unfolding pieces render_pieces once parse_body
render_string c template values =
    render_pieces c values (pieces 0 template) >>= λ r. ok (r.0, once [] r.1)

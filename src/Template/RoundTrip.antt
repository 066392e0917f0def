-- ===== src/Template/RoundTrip.antt =====
-- A printer of filter expressions, and what `parse_body` of playbook_template.py makes of its text.
use models_utils.Prelude.{
  ℕ, zero, suc, ◌+◌, ◌≤◌, ◌<◌, ◌≡◌, refl, Bool, true, false, ◌||◌, some, List, [], ◌∷◌, ◌++◌,
  nat_beq, Text, codes, length, All, arith, append-nil, Bool-cases, inl, inr, le→leb, ◌⊎◌,
  if◌then◌else◌,
}
use models_utils.Expr.Codes.{is_secret_name}
use models_utils.Template.Errors.{
  Filter, upper, lower, trim, alnum, replace, truncate, last, pad_left, mac, default, filter?,
  min_args, max_args, max_filters, max_arg_len, Result, ok,
}
use models_utils.Template.Parser.{
  Expr, skip_ws, span, is_part, escape?, quoted, argument, next_argument, parse_args, filter_name,
  filter_args, one_filter, parse_filters, parse_body, var_name, var_head,
}
use models_utils.Template.NameLaws.{var_name-bar}
use models_utils.Template.WellFormed.{IsCall, IsWellFormed}

-- What stands for a character between double quotes. The printers take the text that follows.
abbrev hide : ℕ → Text → Text
hide c rest = if nat_beq c b'\\' || nat_beq c b'"' then b'\\' ∷ c ∷ rest else c ∷ rest

abbrev hide_all : Text → Text → Text
hide_all [] rest = rest
hide_all (c ∷ s) rest = hide c (hide_all s rest)

abbrev pub print_argument : Text → Text → Text
print_argument a rest = b'"' ∷ hide_all a (b'"' ∷ rest)

-- The arguments behind the first one, and then all of them.
abbrev pub print_more : List Text → Text → Text
print_more [] rest = rest
print_more (a ∷ args) rest = b',' ∷ print_argument a (print_more args rest)

abbrev pub print_arguments : List Text → Text → Text
print_arguments [] rest = rest
print_arguments (a ∷ args) rest = b':' ∷ print_argument a (print_more args rest)

abbrev pub filter_text : Filter → Text
filter_text upper = codes "upper"
filter_text lower = codes "lower"
filter_text trim = codes "trim"
filter_text alnum = codes "alnum"
filter_text replace = codes "replace"
filter_text truncate = codes "truncate"
filter_text last = codes "last"
filter_text pad_left = codes "pad_left"
filter_text mac = codes "mac"
filter_text default = codes "default"

abbrev pub print_filters : List (Filter × List Text) → Text
print_filters [] = []
print_filters ((f, args) ∷ fs) = b'|' ∷ (filter_text f ++ print_arguments args (print_filters fs))

-- The body of a token for an expression, with every argument in double quotes.
unfoldable pub print_body : Expr → Text
print_body e = e.name ++ print_filters e.filters

escape?-self : (c : ℕ) → (nat_beq c b'\\' || nat_beq c b'"') ≡ true → escape? c ≡ some c
unfolding escape?
escape?-self c h = ground arith

neither : (a b : Bool) → (a || b) ≡ false → (a ≡ false) × (b ≡ false)
neither a b h = ground arith

quoted-hide_all : (a s : Text) → quoted b'"' false (hide_all a (b'"' ∷ s)) ≡ ok (a, s)
unfolding quoted
quoted-hide_all [] s = refl
quoted-hide_all (c ∷ a) s = elim (Bool-cases (nat_beq c b'\\' || nat_beq c b'"')) [
  | inl e ↦ rw (e, escape?-self c e, quoted-hide_all a s)
  | inr e ↦
      let (slash, quote) = neither (nat_beq c b'\\') (nat_beq c b'"') e in
      rw (e, slash, quote, quoted-hide_all a s)
]

-- The text behind the arguments of a filter.
data IsRest : Text → Type 0 where
  at_end : IsRest []
  at_bar : (s : Text) → IsRest (b'|' ∷ s)

next_argument-rest :
    (a s : Text) (more : Text → Result (List Text × Text))
    → IsRest s
    → next_argument a (skip_ws s) more ≡ ok (a ∷ [], s)
unfolding next_argument skip_ws
next_argument-rest a _ more at_end = refl
next_argument-rest a _ more (at_bar s) = refl

parse_args-print :
    (f : ℕ) (a : Text) (args : List Text) (s : Text)
    → length args < f
    → All (λ (x : Text). length x ≤ max_arg_len) (a ∷ args)
    → IsRest s
    → parse_args f (print_argument a (print_more args s)) ≡ ok (a ∷ args, s)
unfolding parse_args argument next_argument skip_ws
parse_args-print zero a args s h k r = absurd (omega arith)
parse_args-print (suc f) a [] s h k r =
    rw (quoted-hide_all a s, le→leb (length a) max_arg_len k.0)
      (next_argument-rest a s (parse_args f) r)
parse_args-print (suc f) a (b ∷ args) s h k r = rw (
  quoted-hide_all a (print_more (b ∷ args) s),
  le→leb (length a) max_arg_len k.0,
  parse_args-print f b args s (omega arith) k.1 r,
)

filter_name-print :
    (f : Filter) (s : Text)
    → span is_part s ≡ ([], s)
    → skip_ws s ≡ s
    → filter_name (filter_text f ++ s) ≡ some (filter_text f, s)
unfolding filter_name span skip_ws
filter_name-print upper s h k = rw (h, k)
filter_name-print _ s h k = rw (h, k)

filter?-text : (f : Filter) → filter? (filter_text f) ≡ some f
unfolding filter?
filter?-text upper = refl
filter?-text _ = refl

print_filters-IsRest : (fs : List (Filter × List Text)) → IsRest (print_filters fs)
print_filters-IsRest [] = at_end
print_filters-IsRest ((f, args) ∷ fs) = at_bar _

-- A filter's name ends where its arguments or the next filter begin.
name_ends :
    (args : List Text) (s : Text)
    → IsRest s
    → (span is_part (print_arguments args s) ≡ ([], print_arguments args s))
      × (skip_ws (print_arguments args s) ≡ print_arguments args s)
unfolding span skip_ws
name_ends [] _ at_end = (refl, refl)
name_ends [] _ (at_bar s) = (refl, refl)
name_ends (a ∷ args) s r = (refl, refl)

hide_all-le : (a s : Text) → length s ≤ length (hide_all a s)
hide_all-le [] s = omega arith
hide_all-le (c ∷ a) s = ground (arith, hide_all-le a s)

print_more-le : (args : List Text) (s : Text) → length args ≤ length (print_more args s)
print_more-le [] s = omega arith
print_more-le (a ∷ args) s =
    omega (arith, print_more-le args s, hide_all-le a (b'"' ∷ print_more args s))

filter_args-print :
    (args : List Text) (s : Text)
    → All (λ (x : Text). length x ≤ max_arg_len) args
    → IsRest s
    → filter_args (print_arguments args s) ≡ ok (args, s)
unfolding filter_args
filter_args-print [] _ h at_end = refl
filter_args-print [] _ h (at_bar s) = refl
filter_args-print (a ∷ args) s h r =
    parse_args-print (suc (length (print_argument a (print_more args s)))) a args s
      (let m = print_more-le args s in
        let l = hide_all-le a (b'"' ∷ print_more args s) in omega arith)
      h r

one_filter-print :
    (name : Text) (n : ℕ) (f : Filter) (args : List Text) (s : Text)
    → IsCall (f, args)
    → suc n ≤ max_filters
    → is_secret_name name ≡ false
    → IsRest s
    → one_filter name n (filter_text f ++ print_arguments args s) ≡ ok ((f, args), s)
unfolding one_filter
one_filter-print name n f args s call few plain r =
    let (ends, tight) = name_ends args s r in
    rw (
      filter_name-print f (print_arguments args s) ends tight,
      filter?-text f,
      filter_args-print args s call.short r,
      le→leb (min_args f) (length args) call.enough,
      le→leb (length args) (max_args f) call.few,
      plain,
      le→leb (suc n) max_filters few,
    )

parse_filters-print :
    (f : ℕ) (name : Text) (n : ℕ) (fs : List (Filter × List Text))
    → max_filters < f + n
    → length fs + n ≤ max_filters
    → All IsCall fs
    → (fs ≡ []) ⊎ (is_secret_name name ≡ false)
    → parse_filters f name n (print_filters fs) ≡ ok fs
unfolding parse_filters
parse_filters-print zero name n fs h k calls plain = absurd (omega arith)
parse_filters-print (suc f) name n [] h k calls plain = refl
parse_filters-print (suc f) name n ((g, args) ∷ fs) h k calls (inl e) = cc
parse_filters-print (suc f) name n ((g, args) ∷ fs) h k calls (inr plain) = rw (
  one_filter-print name n g args (print_filters fs) calls.0 (omega arith) plain
      (print_filters-IsRest fs),
  parse_filters-print f name (suc n) fs (omega arith) (omega arith) calls.1 (inr plain),
)

var_name-print :
    (x : Text) (fs : List (Filter × List Text))
    → var_name x ≡ some (x, [])
    → var_name (x ++ print_filters fs) ≡ some (x, print_filters fs)
var_name-print x [] h = rw (append-nil x) h
var_name-print x ((f, args) ∷ fs) h =
    rw (var_name-bar x (filter_text f ++ print_arguments args (print_filters fs)), h)

skip_ws-name : (x s : Text) → var_name x ≡ some (x, []) → skip_ws (x ++ s) ≡ x ++ s
unfolding var_name skip_ws
skip_ws-name [] s h = cc
skip_ws-name (c ∷ x) s h = ground arith

skip_ws-rest : (s : Text) → IsRest s → skip_ws s ≡ s
unfolding skip_ws
skip_ws-rest _ at_end = refl
skip_ws-rest _ (at_bar s) = refl

var_head-print :
    (x : Text) (fs : List (Filter × List Text))
    → var_name x ≡ some (x, [])
    → var_head (x ++ print_filters fs) ≡ some (x, print_filters fs)
unfolding var_head
var_head-print x fs h = rw (
  skip_ws-name x (print_filters fs) h,
  var_name-print x fs h,
  skip_ws-rest (print_filters fs) (print_filters-IsRest fs),
)

plain_or_none : (e : Expr) → IsWellFormed e → (e.filters ≡ []) ⊎ (is_secret_name e.name ≡ false)
plain_or_none e w = elim (Bool-cases (is_secret_name e.name)) [
  | inl h ↦ inl (w.plain h)
  | inr h ↦ inr h
]

-- The text of a well-formed expression, with every argument quoted and escaped, parses back to the
-- expression.
pub parse_body-print : (e : Expr) → IsWellFormed e → parse_body (print_body e) ≡ ok e
unfolding parse_body print_body
parse_body-print e w = rw (
  var_head-print e.name e.filters w.named,
  parse_filters-print (suc max_filters) e.name 0 e.filters (omega arith)
      (let b = w.bounded in omega arith) w.calls (plain_or_none e w),
)

-- ===== src/Template/WellFormed.antt =====
-- What `parse_body` of playbook_template.py returns.
use models_utils.Prelude.{
  ℕ, zero, suc, ◌+◌, ◌≤◌, ◌<◌, ◌≡◌, refl, Bool, true, false, not, ◌||◌, some, List, [], ◌∷◌, leb,
  nat_beq, Text, length, All, arith, Option-cases, inl, inr, leb→le, &&-eq-true,
}
use models_utils.Expr.Codes.{is_secret_name}
use models_utils.Template.Errors.{
  Filter, filter?, min_args, max_args, max_filters, max_arg_len, Result, invalid_escape,
  argument_too_long, no_filter_name, unknown_filter, bad_arity, secret_filtered, too_many_filters,
  after_variable, not_a_reference,
}
use models_utils.Template.Parser.{
  Expr, skip_ws, span, escape?, quoted, bare, argument, next_argument, parse_args, filter_name,
  filter_args, takes, one_filter, parse_filters, parse_body, var_name, var_head, is_bare, is_quote,
}
use models_utils.Template.NameLaws.{var_name_self}
use models_utils.Template.Ensures.{
  Ensures, returns, raises, Ensures-weaken, Ensures-if, Ensures-require, Ensures-choose,
  Ensures-found, Ensures-bind,
}

-- A filter with as many arguments as it takes, each within the limit.
pub record IsCall (p : Filter × List Text) : Type 0 where
  pub enough : min_args p.0 ≤ length p.1
  pub few : length p.1 ≤ max_args p.0
  pub short : All (λ (a : Text). length a ≤ max_arg_len) p.1

pub record IsWellFormed (e : Expr) : Type 0 where
  pub named : var_name e.name ≡ some (e.name, [])
  pub bounded : length e.filters ≤ max_filters
  pub calls : All IsCall e.filters
  pub plain : is_secret_name e.name ≡ true → e.filters ≡ []

skip_ws-le : (s : Text) → length (skip_ws s) ≤ length s
unfolding skip_ws
skip_ws-le [] = omega arith
skip_ws-le (c ∷ s) = ground (arith, skip_ws-le s)

span-le : (p : ℕ → Bool) (s : Text) → length (span p s).0 + length (span p s).1 ≤ length s
unfolding span
span-le p [] = omega arith
span-le p (c ∷ s) = ground (arith, span-le p s)

quoted-Ensures :
    (q : ℕ) (b : Bool) (s : Text)
    → Ensures (λ (p : Text × Text). length p.1 < length s) (quoted q b s)
unfolding quoted
quoted-Ensures q true [] = raises
quoted-Ensures q false [] = raises
quoted-Ensures q true (c ∷ s) =
    Ensures-choose (escape? c) (invalid_escape c)
      λ d e. Ensures-bind (quoted-Ensures q false s) λ p h. returns (omega arith)
quoted-Ensures q false (c ∷ s) =
    Ensures-if (nat_beq c b'\\')
      (λ _. Ensures-weaken (λ p h. omega arith) (quoted-Ensures q true s))
      λ _.
        Ensures-if (nat_beq c q) (λ _. returns (omega arith))
          λ _. Ensures-bind (quoted-Ensures q false s) λ p h. returns (omega arith)

bare-Ensures :
    (c n : ℕ) (s xs r : Text)
    → length xs + length r ≤ n
    → Ensures (λ (p : Text × Text). length p.1 < n) (bare c s (xs, r))
unfolding bare
bare-Ensures c n s [] r h = raises
bare-Ensures c n s (x ∷ xs) r h = returns (omega arith)

argument-Ensures : (s : Text) → Ensures (λ (p : Text × Text). length p.1 < length s) (argument s)
unfolding argument
argument-Ensures [] = raises
argument-Ensures (c ∷ s) =
    Ensures-if (nat_beq c b'|' || nat_beq c b',') (λ _. raises)
      λ _.
        Ensures-if (is_quote c)
          (λ _. Ensures-weaken (λ p h. omega arith) (quoted-Ensures c false s))
          λ _.
            bare-Ensures c (suc (length s)) s (span is_bare (c ∷ s)).0 (span is_bare (c ∷ s)).1
              (span-le is_bare (c ∷ s))

abbrev IsShort : List Text → Type 0
IsShort args = All (λ (a : Text). length a ≤ max_arg_len) args

next_argument-Ensures :
    (arg s : Text) (more : Text → Result (List Text × Text))
    → length arg ≤ max_arg_len
    → ((t : Text) → length t < length s → Ensures (λ (p : List Text × Text). IsShort p.0) (more t))
    → Ensures (λ (p : List Text × Text). IsShort p.0) (next_argument arg s more)
unfolding next_argument
next_argument-Ensures arg [] more short h = returns (short, tt)
next_argument-Ensures arg (c ∷ s) more short h =
    Ensures-if (nat_beq c b',') (λ _. Ensures-bind (h s (omega arith)) λ p k. returns (short, k))
      λ _. Ensures-if (nat_beq c b'|') (λ _. returns (short, tt)) λ _. raises

parse_args-Ensures :
    (f : ℕ) (s : Text)
    → length s < f
    → Ensures (λ (p : List Text × Text). IsShort p.0) (parse_args f s)
unfolding parse_args
parse_args-Ensures zero s h = absurd (omega arith)
parse_args-Ensures (suc f) s h =
    Ensures-bind (argument-Ensures (skip_ws s)) λ (p : Text × Text) shorter.
      Ensures-require (leb (length p.0) max_arg_len) argument_too_long _ λ k.
        next_argument-Ensures p.0 (skip_ws p.1) (parse_args f) (leb→le (length p.0) max_arg_len k)
          λ t l.
            parse_args-Ensures f t (let a = skip_ws-le p.1 in let b = skip_ws-le s in omega arith)

filter_args-Ensures : (s : Text) → Ensures (λ (p : List Text × Text). IsShort p.0) (filter_args s)
unfolding filter_args
filter_args-Ensures [] = returns tt
filter_args-Ensures (c ∷ s) =
    Ensures-if (nat_beq c b':') (λ _. parse_args-Ensures (suc (length s)) s (omega arith))
      λ _. returns tt

-- One filter behind at most three, of a variable that is no secret.
abbrev Follows : Text → ℕ → (Filter × List Text) × Text → Type 0
Follows name n (p, rest) = IsCall p × (suc n ≤ max_filters) × (is_secret_name name ≡ false)

false_of_not : (b : Bool) → not b ≡ true → b ≡ false
false_of_not b h = ground arith

one_filter-Ensures :
    (name : Text) (n : ℕ) (s : Text) → Ensures (Follows name n) (one_filter name n s)
unfolding one_filter
one_filter-Ensures name n s = Ensures-found (filter_name s) no_filter_name λ (p : Text × Text) _.
    Ensures-found (filter? p.0) (unknown_filter p.0) λ f _.
      Ensures-bind (filter_args-Ensures p.1) λ (q : List Text × Text) short.
        Ensures-require (takes f q.0) (bad_arity f (length q.0)) _ λ fits.
          Ensures-require (not (is_secret_name name)) (secret_filtered name) _ λ plain.
            Ensures-require (leb (suc n) max_filters) too_many_filters _ λ few.
              let (low, high) =
                &&-eq-true (leb (min_args f) (length q.0)) (leb (length q.0) (max_args f)) fits in
              returns (
                record {
                  enough = leb→le (min_args f) (length q.0) low;
                  few = leb→le (length q.0) (max_args f) high;
                  short = short;
                },
                leb→le (suc n) max_filters few,
                false_of_not (is_secret_name name) plain,
              )

-- The filters behind `n` others.
abbrev AreFilters : Text → ℕ → List (Filter × List Text) → Type 0
AreFilters name n fs =
    All IsCall fs × (length fs + n ≤ max_filters) × (is_secret_name name ≡ true → fs ≡ [])

parse_filters-Ensures :
    (f : ℕ) (name : Text) (n : ℕ) (s : Text)
    → max_filters < f + n
    → n ≤ max_filters
    → Ensures (AreFilters name n) (parse_filters f name n s)
unfolding parse_filters
parse_filters-Ensures zero name n s h k = absurd (omega arith)
parse_filters-Ensures (suc f) name n [] h k = returns (tt, omega arith, λ _. refl)
parse_filters-Ensures (suc f) name n (c ∷ s) h k =
    Ensures-require (nat_beq c b'|') (after_variable c) _ λ _.
      Ensures-bind (one_filter-Ensures name n s) λ (p : (Filter × List Text) × Text) first.
        Ensures-bind (parse_filters-Ensures f name (suc n) p.1 (omega arith) first.1) λ fs rest.
          returns
            ((first.0, rest.0), let a = rest.1 in omega arith, λ secret. let no = first.2 in cc)

var_head-named : (body x r : Text) → var_head body ≡ some (x, r) → var_name x ≡ some (x, [])
unfolding var_head
var_head-named body x r h = elim (Option-cases (var_name (skip_ws body))) [
  | inl e ↦ let g = rw e at h in cc
  | inr ((y, t), e) ↦
      let g = rw e at h in let same : y ≡ x = cc in rw (← same) (var_name_self (skip_ws body) y t e)
]

-- `parse_body` returns an expression or raises a TemplateError, for every text. The name is one
-- that `_VAR_NAME` matches whole; there are at most 4 filters of the table, each with as many
-- arguments as it takes, of at most 128 characters; and there is none where the name is a secret's.
pub parse_body-IsWellFormed : (body : Text) → Ensures IsWellFormed (parse_body body)
unfolding parse_body
parse_body-IsWellFormed body = Ensures-found (var_head body) not_a_reference λ (p : Text × Text) e.
    Ensures-bind (parse_filters-Ensures (suc max_filters) p.0 0 p.1 (omega arith) (omega arith))
      λ fs h. returns (record {
        named = var_head-named body p.0 p.1 e;
        bounded = let a = h.1 in omega arith;
        calls = h.0;
        plain = h.2;
      })

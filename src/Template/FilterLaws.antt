-- ===== src/Template/FilterLaws.antt =====
-- The filters of playbook_template.py on the arguments that `parse_body` lets through.
use models_utils.Prelude.{
  ℕ, ◌≤◌, ◌≡◌, refl, Bool, true, false, Option, none, some, List, [], ◌∷◌, leb, Text, length, All,
  arith, Bool-cases, inl, inr, if◌then◌else◌, nat_beq, codes, keep_if, ◌&&◌,
}
use models_utils.Prelude.Int.{ℤ, pos, negsuc}
use models_utils.Template.Errors.{
  Filter, upper, lower, trim, alnum, replace, truncate, last, pad_left, mac, default, TemplateError,
  empty_replace, not_whole, out_of_bounds, long_fill, bad_style, not_mac, long_output, Result, ok,
  raised, type_error, out_of_fuel, max_output, ◌>>=◌, ◌>>◌, require, choose,
}
use models_utils.Template.Filters.{
  Casing, int_of_text, within, int_arg, pad_left_filter, mac_filter, mac_style?, run_filter, apply,
  is_hex,
}
use models_utils.Template.Render.{is_default, has_default, or_default, applied, one_step, chain}
use models_utils.Template.WellFormed.{IsCall}

-- The errors of a filter that runs.
abbrev pub is_runtime : TemplateError → Bool
is_runtime empty_replace = true
is_runtime long_fill = true
is_runtime (bad_style s) = true
is_runtime (not_mac s) = true
is_runtime (not_whole f s) = true
is_runtime (out_of_bounds f s) = true
is_runtime (long_output f) = true
is_runtime _ = false

-- A run that returns a value with the property, or raises the error of a filter.
abbrev pub Runs {ℓ} : {A : Type ℓ} → (A → Type 0) → Result A → Type 0
Runs P (ok a) = P a
Runs P (raised e) = is_runtime e ≡ true
Runs P type_error = ⊥
Runs P out_of_fuel = ⊥

Runs-bind {ℓ κ} :
    {A : Type ℓ} {B : Type κ} (P : A → Type 0) (Q : B → Type 0) (r : Result A) (f : A → Result B)
    → Runs P r
    → ((a : A) → P a → Runs Q (f a))
    → Runs Q (r >>= f)
Runs-bind P Q (ok a) f h k = k a h
Runs-bind P Q (raised e) f h k = h
Runs-bind P Q type_error f h k = absurd h
Runs-bind P Q out_of_fuel f h k = absurd h

Runs-choose {ℓ κ} :
    {A : Type ℓ} {B : Type κ} (Q : B → Type 0) (o : Option A) (e : TemplateError) (f : A → Result B)
    → is_runtime e ≡ true
    → ((a : A) → Runs Q (f a))
    → Runs Q (choose o (raised e) f)
Runs-choose Q none e f h k = h
Runs-choose Q (some a) e f h k = k a

Runs-if {ℓ} :
    {A : Type ℓ} (P : A → Type 0) (b : Bool) (x y : Result A)
    → Runs P x
    → Runs P y
    → Runs P (if b then x else y)
Runs-if P true x y h k = h
Runs-if P false x y h k = k

abbrev Any {ℓ} : {A : Type ℓ} → A → Type 0
Any a = Unit

int_arg-Runs : (f : Filter) (s : Text) (low high : ℕ) → Runs Any (int_arg f s low high)
unfolding int_arg
int_arg-Runs f s low high =
    Runs-choose Any (int_of_text s) (not_whole f s) (within f s low high) refl bounded
  where
    bounded : (z : ℤ) → Runs Any (within f s low high z)
    bounded (pos n) = Runs-if Any (leb low n && leb n high) _ _ tt refl
    bounded (negsuc n) = refl

mac_filter-Runs : (s style : Text) → Runs Any (mac_filter s style)
unfolding mac_filter
mac_filter-Runs s style =
    Runs-choose Any (mac_style? style) (bad_style style) _ refl
      λ m. Runs-if Any (nat_beq (length (keep_if is_hex s)) 12) _ _ tt refl

pad_left_filter-Runs : (s width fill : Text) → Runs Any (pad_left_filter s width fill)
unfolding pad_left_filter
pad_left_filter-Runs s width [] = refl
pad_left_filter-Runs s width (c ∷ []) =
    Runs-bind Any Any (int_arg pad_left width 1 64) _ (int_arg-Runs pad_left width 1 64) λ _ _. tt
pad_left_filter-Runs s width (c ∷ d ∷ fill) = refl

run_filter-Runs :
    (c : Casing) (f : Filter) (s : Text) (args : List Text)
    → is_default f ≡ false
    → IsCall (f, args)
    → Runs Any (run_filter c f s args)
unfolding run_filter
run_filter-Runs c upper s [] d w = tt
run_filter-Runs c lower s [] d w = tt
run_filter-Runs c trim s [] d w = tt
run_filter-Runs c alnum s [] d w = tt
run_filter-Runs c upper s (a ∷ args) d w = absurd (let l = w.few in omega arith)
run_filter-Runs c lower s (a ∷ args) d w = absurd (let l = w.few in omega arith)
run_filter-Runs c trim s (a ∷ args) d w = absurd (let l = w.few in omega arith)
run_filter-Runs c alnum s (a ∷ args) d w = absurd (let l = w.few in omega arith)
run_filter-Runs c replace s ([] ∷ new ∷ []) d w = refl
run_filter-Runs c replace s ((o ∷ old) ∷ new ∷ []) d w = tt
run_filter-Runs c truncate s (n ∷ []) d w =
    Runs-bind Any Any (int_arg truncate n 1 512) _ (int_arg-Runs truncate n 1 512) λ _ _. tt
run_filter-Runs c last s (n ∷ []) d w =
    Runs-bind Any Any (int_arg last n 1 512) _ (int_arg-Runs last n 1 512) λ _ _. tt
run_filter-Runs c pad_left s (width ∷ []) d w = pad_left_filter-Runs s width (codes " ")
run_filter-Runs c pad_left s (width ∷ fill ∷ []) d w = pad_left_filter-Runs s width fill
run_filter-Runs c mac s (style ∷ []) d w = mac_filter-Runs s style
run_filter-Runs c default s args d w = cc
run_filter-Runs c _ s [] d w = absurd (let l = w.enough in omega arith)
run_filter-Runs c replace s (a ∷ []) d w = absurd (let l = w.enough in omega arith)
run_filter-Runs c _ s (a ∷ b ∷ args) d w = absurd (let l = w.few in omega arith)

apply-Runs :
    (c : Casing) (f : Filter) (s : Text) (args : List Text)
    → is_default f ≡ false
    → IsCall (f, args)
    → Runs Any (apply c s f args)
unfolding apply
apply-Runs c f s args d w =
    Runs-bind Any Any (run_filter c f s args) _ (run_filter-Runs c f s args d w)
      (λ out _. fits out (leb (length out) max_output))
  where
    fits : (out : Text) (b : Bool) → Runs Any (require b (long_output f) >> ok out)
    fits out true = tt
    fits out false = refl

default-enough :
    (f : Filter) (args : List Text) → is_default f ≡ true → IsCall (f, args) → 1 ≤ length args
default-enough default args d w = w.enough
default-enough _ args d w = cc

or_default-Runs :
    (v : Option Text) (args : List Text) → 1 ≤ length args → Runs Any (or_default v args)
or_default-Runs v [] w = absurd (omega arith)
or_default-Runs v (a ∷ args) w = tt

one_step-Runs :
    (c : Casing) (f : Filter) (args : List Text) (v : Option Text)
    → IsCall (f, args)
    → Runs Any (one_step c f args v)
unfolding one_step
one_step-Runs c f args v w = elim (Bool-cases (is_default f)) [
  | inl d ↦ rw d (or_default-Runs v args (default-enough f args d w))
  | inr d ↦ rw d (applies v d)
]
  where
    applies : (o : Option Text) → is_default f ≡ false → Runs Any (applied c f args o)
    applies none d = tt
    applies (some s) d =
        Runs-bind Any Any (apply c s f args) (λ out. ok (some out)) (apply-Runs c f s args d w)
          λ _ _. tt

-- The loop over the filters of an expression returns, or raises the error of a filter.
pub chain-Runs :
    (c : Casing) (fs : List (Filter × List Text)) (v : Option Text)
    → All IsCall fs
    → Runs Any (chain c fs v)
unfolding chain
chain-Runs c [] v w = tt
chain-Runs c ((f, args) ∷ fs) none w =
    Runs-if Any (has_default ((f, args) ∷ fs)) _ (ok none)
      (Runs-bind Any Any (one_step c f args none) _ (one_step-Runs c f args none w.0)
        λ v' _. chain-Runs c fs v' w.1)
      tt
chain-Runs c ((f, args) ∷ fs) (some s) w =
    Runs-bind Any Any (one_step c f args (some s)) _ (one_step-Runs c f args (some s) w.0)
      λ v' _. chain-Runs c fs v' w.1

abbrev pub IsSome : Option Text → Type 0
IsSome none = ⊥
IsSome (some s) = Unit

or_default-IsSome :
    (s : Text) (args : List Text) → 1 ≤ length args → Runs IsSome (or_default (some s) args)
or_default-IsSome s [] w = absurd (omega arith)
or_default-IsSome s (a ∷ args) w = ground arith

one_step-IsSome :
    (c : Casing) (f : Filter) (args : List Text) (s : Text)
    → IsCall (f, args)
    → Runs IsSome (one_step c f args (some s))
unfolding one_step
one_step-IsSome c f args s w = elim (Bool-cases (is_default f)) [
  | inl d ↦ rw d (or_default-IsSome s args (default-enough f args d w))
  | inr d ↦ rw d (
      Runs-bind Any IsSome (apply c s f args) (λ out. ok (some out)) (apply-Runs c f s args d w)
        λ _ _. tt)
]

at_some :
    (P : Option Text → Type 0) → ((s : Text) → P (some s)) → (v : Option Text) → IsSome v → P v
at_some P k none h = absurd h
at_some P k (some s) h = k s

-- From a value it goes on to a value.
pub chain-IsSome :
    (c : Casing) (fs : List (Filter × List Text)) (s : Text)
    → All IsCall fs
    → Runs IsSome (chain c fs (some s))
unfolding chain
chain-IsSome c [] s w = tt
chain-IsSome c ((f, args) ∷ fs) s w =
    Runs-bind IsSome IsSome (one_step c f args (some s)) _ (one_step-IsSome c f args s w.0)
      (at_some (λ v. Runs IsSome (chain c fs v)) λ t. chain-IsSome c fs t w.1)

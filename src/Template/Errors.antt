-- ===== src/Template/Errors.antt =====
-- database_utils/utils/playbook_template.py: TemplateError, the closed table of filters and limits.
use models_utils.Prelude.{
  ℕ, ◌*◌, Bool, true, false, Option, none, some, List, [], ◌∷◌, Text, codes, text_eq, lookup,
}

-- The keys of FILTERS.
pub data Filter : Type 0 where
  upper lower trim alnum replace truncate last pad_left mac default : Filter

abbrev pub filters : List (Text × Filter)
filters =
    (codes "upper", upper)
    ∷ (codes "lower", lower)
    ∷ (codes "trim", trim)
    ∷ (codes "alnum", alnum)
    ∷ (codes "replace", replace)
    ∷ (codes "truncate", truncate)
    ∷ (codes "last", last)
    ∷ (codes "pad_left", pad_left)
    ∷ (codes "mac", mac)
    ∷ (codes "default", default)
    ∷ []

-- `FILTERS[fname]`, where there is one
unfoldable pub filter? : Text → Option Filter
filter? fname = lookup filters fname

abbrev pub min_args : Filter → ℕ
min_args replace = 2
min_args truncate = 1
min_args last = 1
min_args pad_left = 1
min_args mac = 1
min_args default = 1
min_args _ = 0

abbrev pub max_args : Filter → ℕ
max_args replace = 2
max_args truncate = 1
max_args last = 1
max_args pad_left = 2
max_args mac = 1
max_args default = 1
max_args _ = 0

abbrev pub max_filters : ℕ
max_filters = 4

abbrev pub max_arg_len : ℕ
max_arg_len = 128

abbrev pub max_output : ℕ
max_output = 64 * 1024

abbrev pub max_body : ℕ
max_body = 512

-- A TemplateError, by what its message tells.
pub data TemplateError : Type 0 where
  not_a_reference no_filter_name too_many_filters : TemplateError
  empty_argument unterminated dangling_backslash argument_too_long : TemplateError
  empty_replace long_fill : TemplateError
  after_variable invalid_escape in_argument after_argument : ℕ → TemplateError
  unknown_filter secret_filtered bad_style not_mac : Text → TemplateError
  bad_arity : Filter → ℕ → TemplateError
  not_whole out_of_bounds : Filter → Text → TemplateError
  long_output : Filter → TemplateError

-- `raised` is a TemplateError. `type_error` is the TypeError of a filter that is called with too
-- few or too many arguments, which no caller catches. `out_of_fuel` has no counterpart.
pub data Result {ℓ} (A : Type ℓ) : Type ℓ where
  ok : A → Result A
  raised : TemplateError → Result A
  type_error out_of_fuel : Result A

infixl 5 ◌>>=◌ ◌>>◌
abbrev pub ◌>>=◌ {ℓ κ} : {A : Type ℓ} {B : Type κ} → Result A → (A → Result B) → Result B
ok a >>= f = f a
raised e >>= f = raised e
type_error >>= f = type_error
out_of_fuel >>= f = out_of_fuel

abbrev pub ◌>>◌ {ℓ} : {B : Type ℓ} → Result (Unit {0}) → Result B → Result B
m >> k = m >>= λ _. k

-- `if not test: raise TemplateError(...)`
abbrev pub require : Bool → TemplateError → Result (Unit {0})
require true e = ok tt
require false e = raised e

-- A branch on whether there is a value.
abbrev pub choose {ℓ κ} :
    {A : Type ℓ} {B : Type κ} → Option A → Result B → (A → Result B) → Result B
choose none x f = x
choose (some a) x f = f a

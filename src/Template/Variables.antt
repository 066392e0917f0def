-- ===== src/Template/Variables.antt =====
-- database_utils/utils/playbook_template.py: `resolve_variables` and `mask_secrets`, with
-- `input_key` of database_utils/utils/provisioning_resolution.py.
use models_utils.Prelude.{
  Bool, Option, none, some, List, [], ◌∷◌, ◌++◌, Text, codes, text_eq, lookup, assign, is_some, any,
  if◌then◌else◌,
}
use models_utils.Prelude.Int.{ℤ}
use models_utils.Expr.Codes.{Code, Result, ◌>>=◌, ok, is_prefix, is_secret_name}
use models_utils.Expr.Eval.{Env, Value, null, num, str}
use models_utils.Expr.Block.{Computed, Report, Variables, evaluate_all}

-- An entry of the definition's `variables`. A default of None is no default.
pub record Declared : Type 0 where
  pub key : Text
  pub default : Value
  pub required : Bool

abbrev pub input_key : Text → Text
input_key key = if is_prefix (codes "input.") key then key else codes "input." ++ key

-- `_RESERVED_PREFIXES`
abbrev pub reserved_prefixes : List Text
reserved_prefixes = codes "computed." ∷ codes "capture." ∷ codes "secret." ∷ codes "acs." ∷ []

unfoldable pub is_reserved : Text → Bool
is_reserved key = any (λ prefix. is_prefix prefix key) reserved_prefixes

-- An entry of the second result: a required key, an operand without a value, or an error of the
-- computed block.
pub data Missing : Type 0 where
  required operand : Text → Missing
  computed : Option Text → Code → Missing

abbrev pub Resolving : Type 0
Resolving = Variables × List Missing

-- `elif var.get("default") is not None` and the branch behind it
abbrev pub use_default : Declared → Value → Resolving → Resolving
use_default var null (resolved, missing) =
    (resolved, if var.required then missing ++ required var.key ∷ [] else missing)
use_default var v (resolved, missing) = (assign resolved (input_key var.key) v, missing)

abbrev pub use_provided : Declared → Option Value → Option Value → Resolving → Resolving
use_provided var (some v) o (resolved, missing) = (assign resolved (input_key var.key) v, missing)
use_provided var none (some v) (resolved, missing) =
    (assign resolved (input_key var.key) v, missing)
use_provided var none none r = use_default var var.default r

-- The loop over the declared variables.
unfoldable pub declare_variables : Variables → List Declared → Resolving → Resolving
declare_variables provided [] r = r
declare_variables provided (var ∷ vars) r =
    declare_variables provided vars
      (use_provided var (lookup provided var.key) (lookup provided (input_key var.key)) r)

-- `resolved.setdefault(k, v)`
abbrev pub set_default : Variables → Text → Value → Variables
set_default resolved k v = if is_some (lookup resolved k) then resolved else assign resolved k v

-- The loop over what else is provided.
unfoldable pub pass_through : Variables → Variables → Variables
unfolding is_reserved
pass_through [] resolved = resolved
pass_through ((k, v) ∷ provided) resolved =
    pass_through provided (if is_reserved k then resolved else set_default resolved k v)

abbrev pub set_number : Variables → Text → Option ℤ → Variables
set_number resolved k none = resolved
set_number resolved k (some x) = assign resolved k (num x)

-- `resolved.update(values)`: `resolved[k] = values[k]` for each key of the second list.
unfoldable pub update_with : Env → Env → Variables → Variables
update_with values [] resolved = resolved
update_with values ((k, x) ∷ more) resolved =
    update_with values more (set_number resolved k (lookup values k))

abbrev pub computed_error : Option Text × Code → Missing
computed_error (key, code) = computed key code

abbrev pub map_missing {ℓ} : {A : Type ℓ} → (A → Missing) → List A → List Missing
map_missing f [] = []
map_missing f (x ∷ xs) = f x ∷ map_missing f xs

unfoldable pub resolve_variables : List Declared → Computed → Variables → Result Resolving
unfolding declare_variables pass_through update_with evaluate_all
resolve_variables declared block provided =
    let (resolved, missing) = declare_variables provided declared ([], []) in
    let merged = pass_through provided resolved in
    evaluate_all block merged >>= λ (r : Report). ok (
      update_with r.values r.values merged,
      missing ++ (map_missing operand r.missing ++ map_missing computed_error r.errors),
    )

-- `mask_secrets`
unfoldable pub mask_secrets : Variables → Variables
unfolding is_secret_name
mask_secrets [] = []
mask_secrets ((k, v) ∷ vars) =
    (k, if is_secret_name k then str (codes "***") else v) ∷ mask_secrets vars

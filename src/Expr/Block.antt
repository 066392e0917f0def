-- ===== src/Expr/Block.antt =====
-- database_utils/utils/playbook_expr.py: `_field`, `_is_bound` and `evaluate_all`.
use models_utils.Prelude.{
  Bool, true, false, ◌&&◌, not, Option, none, some, List, [], ◌∷◌, ◌++◌, Text, codes, ◌==◌, text_eq,
  contains, lookup, assign, if◌then◌else◌,
}
use models_utils.Prelude.Int.{ℤ, ltb_ℤ}
use models_utils.Expr.Codes.{
  Code, Result, ok, err, key_error, out_of_fuel, syntax, name_error, secret, type_error, range,
  ◌>>=◌, ◌>>◌, choose, require, is_prefix, is_secret_name,
}
use models_utils.Expr.Parser.{parse, names}
use models_utils.Expr.Eval.{Env, evaluate, Value, null, num, str, coerce_operand}

-- `_field` of the four names. A key that a dict lacks, and every field of an entry that is
-- neither a dict nor a model, is `null`.
pub record Entry : Type 0 where
  pub key : Value
  pub expr : Value
  pub min : Value
  pub max : Value

-- A truthy `computed` that is no list or tuple is `not_a_list`.
pub data Computed : Type 0 where
  entries : List Entry → Computed
  not_a_list : Computed

abbrev pub is_bound : Value → Bool
is_bound null = true
is_bound (num x) = true
is_bound _ = false

-- f"computed.{key}"
abbrev pub computed_name : Text → Text
computed_name key = codes "computed." ++ key

pub record Report : Type 0 where
  pub values : Env
  pub missing : List Text
  pub errors : List (Option Text × Code)
  pub declared : List Text

-- What the loop over `names(tree)` has gathered.
pub record Scan : Type 0 where
  pub env : Env
  pub skip : Bool
  pub absent : List Text

abbrev pub Variables : Type 0
Variables = List (Text × Value)

-- `variables.get(name)`: a key that is absent reads as None
abbrev pub variable : Variables → Text → Value
variable vars w = elim (lookup vars w) [ some v ↦ v | none ↦ null ]

-- One name that is a computed key.
unfoldable pub scan_computed : Env → List Text → Text → Text → Scan → Result Scan
scan_computed values declared own w s =
    choose (lookup values w)
      (if contains declared w && not (w == own)
        then ok (record s { skip = true })
        else err name_error)
      λ x. ok (record s { env = assign s.env w x })

unfoldable pub scan_value : Text → Value → Scan → Result Scan
scan_value w null s = ok (record s {
  skip = true;
  absent = if contains s.absent w then s.absent else s.absent ++ w ∷ [];
})
scan_value w v s = coerce_operand w v >>= λ x. ok (record s { env = assign s.env w x })

unfoldable pub scan_name : Env → List Text → Text → Variables → Text → Scan → Result Scan
unfolding scan_computed scan_value
scan_name values declared own vars w s =
    if is_secret_name w
    then err secret
    else if is_prefix (codes "computed.") w
    then scan_computed values declared own w s
    else scan_value w (variable vars w) s

-- Goes on with a value; an exception keeps the names that are missing so far.
abbrev pub proceed {ℓ κ} :
    {A : Type ℓ} {B : Type κ}
    → List Text
    → Result A
    → (A → List Text × Result B)
    → List Text × Result B
proceed missing (ok a) k = k a
proceed missing (err c) k = (missing, err c)
proceed missing key_error k = (missing, key_error)
proceed missing out_of_fuel k = (missing, out_of_fuel)

-- The loop. `missing` is shared with the caller, so what it has gained stays when a name raises.
unfoldable pub scan_names :
    Env → List Text → Text → Variables → List Text → Scan → List Text × Result Scan
unfolding scan_name
scan_names values declared own vars [] s = (s.absent, ok s)
scan_names values declared own vars (w ∷ ws) s =
    proceed s.absent (scan_name values declared own vars w s)
      λ s'. scan_names values declared own vars ws s'

abbrev pub above : Value → ℤ → Bool
above (num l) x = not (ltb_ℤ x l)
above _ x = true

abbrev pub below : Value → ℤ → Bool
below (num h) x = not (ltb_ℤ h x)
below _ x = true

-- Neither `low is not None and result < low` nor the same of `high`.
unfoldable pub in_range : Value → Value → ℤ → Bool
in_range low high x = above low x && below high x

-- From the scan to the result: `none` if the entry is skipped.
unfoldable pub finish : Entry → Scan → Result ℤ → Result (Option ℤ)
unfolding in_range
finish e s result =
    if s.skip
    then ok none
    else result >>= λ x. require (in_range e.min e.max x) range >> ok (some x)

-- The `try` block of one entry, with the missing names after it.
unfoldable pub attempt : Report → Text → Text → Entry → Variables → List Text × Result (Option ℤ)
unfolding scan_names finish
attempt r key expr e vars =
    if is_bound e.min && is_bound e.max
    then (proceed r.missing (parse expr) λ tree.
        let (missing, scanned) =
          scan_names r.values r.declared (computed_name key) vars (names tree)
            (record { env = []; skip = false; absent = r.missing }) in
        (missing, scanned >>= λ s. finish e s (evaluate tree s.env)))
    else (r.missing, err type_error)

-- The end of the `try` and its handler. A KeyError is not handled.
unfoldable pub settle : Report → Text → List Text × Result (Option ℤ) → Result Report
settle r key (missing, ok none) = ok (record r { missing = missing })
settle r key (missing, ok (some x)) =
    ok (record r { missing = missing; values = assign r.values (computed_name key) x })
settle r key (missing, err c) =
    ok (record r { missing = missing; errors = r.errors ++ (some key, c) ∷ [] })
settle r key (missing, key_error) = key_error
settle r key (missing, out_of_fuel) = out_of_fuel

-- `declared.add(...)`
abbrev pub declare : Text → Report → Report
declare key r = record r { declared = computed_name key ∷ r.declared }

abbrev pub malformed : Option Text → Report → Report
malformed key r = record r { errors = r.errors ++ (key, syntax) ∷ [] }

-- The body of the loop. The entry's key and expression are looked at first.
unfoldable pub step : Variables → Value → Value → Entry → Report → Result Report
unfolding attempt settle
step vars (str key) (str expr) e r =
    let r' = declare key r in settle r' key (attempt r' key expr e vars)
step vars (str key) _ e r = ok (malformed (some key) r)
step vars _ _ e r = ok (malformed none r)

unfoldable pub run_entries : Variables → List Entry → Report → Result Report
unfolding step
run_entries vars [] r = ok r
run_entries vars (e ∷ es) r = step vars e.key e.expr e r >>= run_entries vars es

abbrev pub empty_report : Report
empty_report = record { values = []; missing = []; errors = []; declared = [] }

unfoldable pub evaluate_all : Computed → Variables → Result Report
unfolding run_entries
evaluate_all (entries es) vars = run_entries vars es empty_report
evaluate_all not_a_list vars = ok (malformed none empty_report)

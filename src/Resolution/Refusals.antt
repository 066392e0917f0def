-- ===== src/Resolution/Refusals.antt =====
-- database_utils/utils/provisioning_resolution.py: `_refusals`.
use models_utils.Prelude.{
  Bool, not, ◌&&◌, ◌||◌, Option, none, some, List, [], ◌∷◌, ◌++◌, Text, codes, text_eq, contains,
  lookup, assign, map, is_some, if◌then◌else◌,
}
use models_utils.Expr.Codes.{Result, ok, Code, namespaces}
use models_utils.Expr.Eval.{Env, Value, num, str}
use models_utils.Expr.Block.{
  Entry, Computed, entries, not_a_list, Variables, variable, computed_name, Report, evaluate_all,
}
use models_utils.Template.Render.{names_once}
use models_utils.Resolution.Rows.{PlaybookRow, Baseline}
use models_utils.Resolution.Outcome.{
  compute, compute_syntax, malformed, Refusal, Outcome, done, crashed, ◌>>=◌, unique,
}
use models_utils.Resolution.Nodes.{Node, item_id_of, build_device_frame, update}
use models_utils.Resolution.Tokens.{step_tokens, computed_names, namespace_of}
use models_utils.Resolution.Explain.{Explainer, explain, is_null, port_fact_drift}

-- `variables |= values`
abbrev pub add_values : Variables → Env → Variables
add_values vars [] = vars
add_values vars ((k, x) ∷ more) = add_values (assign vars k (num x)) more

abbrev pub declare_key : Value → List Text → List Text
declare_key (str key) declared = computed_name key ∷ declared
declare_key _ declared = declared

abbrev pub declared_in : List Entry → List Text
declared_in [] = []
declared_in (e ∷ es) = declare_key e.key (declared_in es)

-- The names behind `declared`. A key that is no string makes a name that no token can have.
unfoldable pub declared_names : Computed → List Text
declared_names (entries es) = declared_in es
declared_names not_a_list = []

abbrev pub entries_of : Computed → List Entry
entries_of (entries es) = es
entries_of not_a_list = []

abbrev pub shape_errors : Node → Computed → List Refusal
shape_errors n (entries es) = []
shape_errors n not_a_list =
    record { reason = compute_syntax; token = none; item = some (item_id_of n) } ∷ []

-- An exception of `evaluate_all` would leave the resolver.
abbrev pub reported : Result Report → Outcome Report
reported (ok r) = done r
reported _ = crashed

abbrev pub compute_errors : Node → List (Option Text × Code) → List Refusal
compute_errors n es =
    map
      (λ (p : Option Text × Code). record {
        reason = compute p.1;
        token = p.0;
        item = some (item_id_of n);
      })
      es

-- A token that the resolver must fill: none of its own namespaces, a default, or a failed computed
-- key are passed over.
unfoldable pub must_fill : List Text → Env → Text → Bool → Bool
unfolding namespace_of
must_fill declared values name has_default =
    not (has_default || not (contains namespaces (namespace_of name)))
    && not (contains declared name && not (is_some (lookup values name)))

-- The loop over the tokens.
unfoldable pub token_errors :
    Explainer → Node → List Text → Env → Variables → List (Text × Bool) → List Refusal
unfolding must_fill explain
token_errors x n declared values vars [] = []
token_errors x n declared values vars ((name, has_default) ∷ ts) =
    let more = token_errors x n declared values vars ts in
    if must_fill declared values name has_default && is_null (variable vars name)
    then explain x n name ∷ more
    else more

abbrev pub names_of : List (Text × Bool) → List Text
names_of ts = map (λ (p : Text × Bool). p.0) ts

abbrev pub or_no_names : Option (List Text) → List Text
or_no_names none = []
or_no_names (some ns) = ns

-- What is read, each once: `dict.fromkeys(read)`.
unfoldable pub names_read : PlaybookRow → List Text
unfolding step_tokens computed_names names_once
names_read pb =
    names_once []
      (names_of (step_tokens pb.texts).tokens ++ or_no_names (computed_names pb.computed))

abbrev pub drift_of : Option Baseline → Explainer → Node → List Text → Variables → List Refusal
drift_of none x n read vars = []
drift_of (some b) x n read vars = port_fact_drift b x n read vars

-- The node's own variables: `dict(shared) | device_variables[item_id]`
unfoldable pub step_variables : Variables → Node → Variables
unfolding build_device_frame
step_variables shared n = update shared (build_device_frame n (codes "device"))

-- What the loop adds for one step, with the report on its computed block.
unfoldable pub report_errors :
    Option Baseline → Explainer → Variables → Node → PlaybookRow → Report → List Refusal
unfolding explain step_tokens token_errors port_fact_drift names_read declared_names
report_errors baseline x vars n pb r =
    let found = step_tokens pb.texts in
    let all_vars = add_values vars r.values in
    shape_errors n pb.computed
    ++ (compute_errors n r.errors
        ++ (map (explain x n) r.missing
            ++ (map
                  (λ (raw : Text). record {
                    reason = malformed;
                    token = some raw;
                    item = some (item_id_of n);
                  })
                  found.malformed
                ++ (token_errors x n (declared_names pb.computed) r.values all_vars found.tokens
                    ++ drift_of baseline x n (names_read pb) all_vars))))

unfoldable pub step_errors :
    Option Baseline → Explainer → Variables → Node → PlaybookRow → Outcome (List Refusal)
unfolding evaluate_all report_errors step_variables
step_errors baseline x shared n pb =
    let vars = step_variables shared n in
    reported (evaluate_all (entries (entries_of pb.computed)) vars) >>= λ r.
    done (report_errors baseline x vars n pb r)

unfoldable pub all_errors :
    Option Baseline → Explainer → Variables → List (Node × PlaybookRow) → Outcome (List Refusal)
unfolding step_errors
all_errors baseline x shared [] = done []
all_errors baseline x shared ((n, pb) ∷ steps) = step_errors baseline x shared n pb >>= λ here.
    all_errors baseline x shared steps >>= λ more. done (here ++ more)

-- `_refusals`; the baseline is that of the purposes other than ACTIVATION.
unfoldable pub refusals :
    Option Baseline → Explainer → Variables → List (Node × PlaybookRow) → Outcome (List Refusal)
unfolding all_errors unique
refusals baseline x shared steps =
    all_errors baseline x shared steps >>= λ errors. done (unique [] errors)

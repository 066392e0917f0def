-- ===== src/Resolution/Exact.antt =====
-- `_refusals` of provisioning_resolution.py refuses nothing exactly when each step is ready.
use models_utils.Prelude.{
  ◌≡◌, ◌≢◌, refl, ap, sym, subst, ◌↔◌, map, ◌++◌, Bool, true, false, ◌&&◌, Option, none, some, List,
  [], ◌∷◌, Text, text_eq, All, arith, Bool-cases, inl, inr,
}
use models_utils.Expr.Codes.{Code, Result, ok}
use models_utils.Expr.Eval.{Env}
use models_utils.Expr.Block.{
  Computed, entries, not_a_list, Variables, variable, Report, evaluate_all,
}
use models_utils.Expr.DeclaredLaws.{IsClean}
use models_utils.Resolution.Rows.{PlaybookRow, Baseline}
use models_utils.Resolution.Outcome.{done, unique}
use models_utils.Resolution.Nodes.{Node}
use models_utils.Resolution.Tokens.{step_tokens}
use models_utils.Resolution.Explain.{Explainer, explain, is_port_token, port_fact_drift, is_null}
use models_utils.Resolution.Refusals.{
  shape_errors, compute_errors, add_values, declared_names, entries_of, must_fill, token_errors,
  names_read, drift_of, step_variables, report_errors, step_errors, all_errors, refusals,
}
use models_utils.Resolution.Ready.{Yields, Filled, Undrifted, StepReady, refusals-Yields}

must_fill_none :
    (declared : List Text) (values : Env) (vars : Variables) (name : Text) (d : Bool)
    → Filled vars (name, d)
    → (must_fill declared values name d && is_null (variable vars name)) ≡ false
unfolding must_fill
must_fill_none declared values vars name true h = refl
must_fill_none declared values vars name false h = ground (arith, h refl)

token_errors-nil :
    (x : Explainer) (n : Node) (declared : List Text) (values : Env) (vars : Variables)
    (ts : List (Text × Bool))
    → All (Filled vars) ts
    → token_errors x n declared values vars ts ≡ []
unfolding token_errors
token_errors-nil x n declared values vars [] h = refl
token_errors-nil x n declared values vars ((name, d) ∷ ts) (h, hs) =
    rw (must_fill_none declared values vars name d h)
      (token_errors-nil x n declared values vars ts hs)

port_fact_drift-nil :
    (b : Baseline) (x : Explainer) (n : Node) (names : List Text) (vars : Variables)
    → All (Undrifted b x n vars) names
    → port_fact_drift b x n names vars ≡ []
unfolding port_fact_drift
port_fact_drift-nil b x n [] vars h = refl
port_fact_drift-nil b x n (name ∷ names) vars (h, hs) = elim (Bool-cases (is_port_token name)) [
  | inl e ↦ rw (e, h e) (port_fact_drift-nil b x n names vars hs)
  | inr e ↦ rw e (port_fact_drift-nil b x n names vars hs)
]

drift_of-nil :
    (baseline : Option Baseline) (x : Explainer) (n : Node) (names : List Text) (vars : Variables)
    → ((b : Baseline) → baseline ≡ some b → All (Undrifted b x n vars) names)
    → drift_of baseline x n names vars ≡ []
drift_of-nil none x n names vars h = refl
drift_of-nil (some b) x n names vars h = port_fact_drift-nil b x n names vars (h b refl)

abbrev errors_of : Result Report → List (Option Text × Code)
errors_of (ok r) = r.errors
errors_of _ = []

cons-ne-nil {ℓ} : {A : Type ℓ} {x : A} {xs ys : List A} → (x ∷ xs) ≡ ys → ys ≢ []
cons-ne-nil e h = cc

-- A block that is no list has no clean report.
not_a_list_fails :
    (vars : Variables) (r : Report) → evaluate_all not_a_list vars ≡ ok r → r.errors ≢ []
unfolding evaluate_all
not_a_list_fails vars r e = cons-ne-nil (ap errors_of e)

is_list :
    (c : Computed) (vars : Variables) (r : Report)
    → evaluate_all c vars ≡ ok r
    → IsClean r
    → entries (entries_of c) ≡ c
is_list (entries es) vars r e clean = refl
is_list not_a_list vars r e clean = absurd (not_a_list_fails vars r e clean.0)

shape_errors-nil :
    (n : Node) (c : Computed) (vars : Variables) (r : Report)
    → evaluate_all c vars ≡ ok r
    → IsClean r
    → shape_errors n c ≡ []
shape_errors-nil n (entries es) vars r e clean = refl
shape_errors-nil n not_a_list vars r e clean = absurd (not_a_list_fails vars r e clean.0)

nothing_added {ℓ} : {A : Type ℓ} {xs ys : List A} → xs ≡ [] → ys ≡ [] → (xs ++ ys) ≡ []
nothing_added a b = rw (a, b) refl

report_errors-nil :
    (baseline : Option Baseline) (x : Explainer) (shared : Variables) (n : Node) (pb : PlaybookRow)
    (r : Report)
    → evaluate_all pb.computed (step_variables shared n) ≡ ok r
    → IsClean r
    → (step_tokens pb.texts).malformed ≡ []
    → All (Filled (add_values (step_variables shared n) r.values)) (step_tokens pb.texts).tokens
    → ((b : Baseline)
        → baseline ≡ some b
        → All (Undrifted b x n (add_values (step_variables shared n) r.values)) (names_read pb))
    → report_errors baseline x (step_variables shared n) n pb r ≡ []
unfolding report_errors
report_errors-nil baseline x shared n pb r e clean broken filled same =
    nothing_added (shape_errors-nil n pb.computed _ r e clean) (
      nothing_added (ap (compute_errors n) clean.0) (
        nothing_added (ap (map (explain x n)) clean.1) (
          nothing_added (ap (map _) broken) (
            nothing_added (token_errors-nil x n (declared_names pb.computed) r.values _ _ filled)
              (drift_of-nil baseline x n (names_read pb) _ same)))))

step_errors-nil :
    (baseline : Option Baseline) (x : Explainer) (shared : Variables) (n : Node) (pb : PlaybookRow)
    → StepReady baseline x shared (n, pb)
    → step_errors baseline x shared n pb ≡ done []
unfolding step_errors
step_errors-nil baseline x shared n pb (r, e, clean, broken, filled, same) =
    let vars = step_variables shared n in
    rw (subst (λ c. evaluate_all c vars ≡ ok r) (sym (is_list pb.computed vars r e clean)) e)
      (ap done (report_errors-nil baseline x shared n pb r e clean broken filled same))

all_errors-nil :
    (baseline : Option Baseline) (x : Explainer) (shared : Variables)
    (steps : List (Node × PlaybookRow))
    → All (StepReady baseline x shared) steps
    → all_errors baseline x shared steps ≡ done []
unfolding all_errors
all_errors-nil baseline x shared [] h = refl
all_errors-nil baseline x shared ((n, pb) ∷ steps) (h, hs) =
    rw (step_errors-nil baseline x shared n pb h, all_errors-nil baseline x shared steps hs) refl

refusals-eq-nil :
    (baseline : Option Baseline) (x : Explainer) (shared : Variables)
    (steps : List (Node × PlaybookRow))
    → All (StepReady baseline x shared) steps
    → refusals baseline x shared steps ≡ done []
unfolding refusals unique
refusals-eq-nil baseline x shared steps h = rw (all_errors-nil baseline x shared steps h) refl

-- The check before a run refuses nothing exactly when each step is ready: its computed block reports
-- no error and no missing name, its texts have no malformed token, every token of the resolver's
-- namespaces without a default has a value among the variables, and, given a baseline, no port fact
-- that it reads has drifted.
pub refusals-StepReady :
    (baseline : Option Baseline) (x : Explainer) (shared : Variables)
    (steps : List (Node × PlaybookRow))
    → (refusals baseline x shared steps ≡ done []) ↔ All (StepReady baseline x shared) steps
refusals-StepReady baseline x shared steps = (
  λ e.
      subst (Yields (λ es. es ≡ [] → All (StepReady baseline x shared) steps)) e
        (refusals-Yields baseline x shared steps) refl,
  refusals-eq-nil baseline x shared steps,
)

-- ===== src/Resolution/Ready.antt =====
-- What `_refusals` of provisioning_resolution.py checks: the steps that are ready to run.
use models_utils.Prelude.{
  ◌≡◌, ◌≢◌, refl, sym, subst, Bool, true, false, ◌&&◌, Option, none, some, List, [], ◌∷◌, ◌++◌,
  Text, ◌==◌, text_eq, text_beq_iff, contains, lookup, map, any, is_some, All, append-eq-nil, arith,
  Bool-cases, inl, inr,
}
use models_utils.Expr.Codes.{ok, namespaces}
use models_utils.Expr.Eval.{Env, Value, null, other, bool, num, str}
use models_utils.Expr.Block.{
  Entry, Computed, entries, not_a_list, Variables, variable, computed_name, Report, evaluate_all,
}
use models_utils.Expr.BlockLaws.{evaluate_all-IsSound}
use models_utils.Expr.DeclaredLaws.{IsClean, HasValue, evaluate_all-HasValue}
use models_utils.Resolution.Rows.{PlaybookRow, Baseline}
use models_utils.Resolution.Outcome.{
  Refusal, Outcome, done, raised, crashed, ◌>>=◌, same_refusal, unique,
}
use models_utils.Resolution.Nodes.{Node}
use models_utils.Resolution.Tokens.{step_tokens, namespace_of}
use models_utils.Resolution.Explain.{
  Explainer, explain, is_port_token, has_drifted, baseline_frame, port_fact_drift, is_null,
}
use models_utils.Resolution.Refusals.{
  add_values, declare_key, declared_in, declared_names, entries_of, shape_errors, compute_errors,
  must_fill, token_errors, names_read, drift_of, step_variables, report_errors, step_errors,
  all_errors, refusals,
}

-- A value that satisfies P, or a raised ResolutionError: no other exception.
abbrev pub Yields {ℓ} : {A : Type ℓ} → (A → Type 0) → Outcome A → Type 0
Yields P (done a) = P a
Yields P (raised e) = Unit
Yields P crashed = ⊥

pub Yields-bind {ℓ κ} :
    {A : Type ℓ} {B : Type κ} (P : A → Type 0) (Q : B → Type 0) (m : Outcome A) (k : A → Outcome B)
    → Yields P m
    → ((a : A) → P a → Yields Q (k a))
    → Yields Q (m >>= k)
Yields-bind P Q (done a) k h f = f a h
Yields-bind P Q (raised e) k h f = tt
Yields-bind P Q crashed k h f = h

-- A token of the resolver's namespaces with no default has a value.
abbrev pub Filled : Variables → Text × Bool → Type 0
Filled vars (name, has_default) =
    has_default ≡ false
    → contains namespaces (namespace_of name) ≡ true
    → is_null (variable vars name) ≡ false

-- A port fact has the value that it had at the baseline, if it had one.
abbrev pub Undrifted : Baseline → Explainer → Node → Variables → Text → Type 0
Undrifted b x n vars name =
    is_port_token name ≡ true
    → has_drifted (variable (baseline_frame b x n name).0 name) (variable vars name) ≡ false

abbrev pub StepReady : Option Baseline → Explainer → Variables → Node × PlaybookRow → Type 0
StepReady baseline x shared (n, pb) =
    (report : Report) × (evaluate_all pb.computed (step_variables shared n) ≡ ok report)
    × IsClean report
    × ((step_tokens pb.texts).malformed ≡ [])
    × All (Filled (add_values (step_variables shared n) report.values))
        (step_tokens pb.texts).tokens
    × ((b : Baseline)
        → baseline ≡ some b
        → All (Undrifted b x n (add_values (step_variables shared n) report.values))
            (names_read pb))

-- Once an error is there, it stays.
unique-ne-nil : (e : Refusal) (seen es : List Refusal) → unique (e ∷ seen) es ≢ []
unfolding unique
unique-ne-nil e seen [] h = cc
unique-ne-nil e seen (d ∷ es) h = elim (Bool-cases (any (same_refusal d) (e ∷ seen))) [
  | inl t ↦ unique-ne-nil e seen es (rw t at h)
  | inr t ↦ unique-ne-nil e (seen ++ d ∷ []) es (rw t at h)
]

unique-eq-nil : (es : List Refusal) → unique [] es ≡ [] → es ≡ []
unfolding unique
unique-eq-nil [] h = refl
unique-eq-nil (e ∷ es) h = absurd (unique-ne-nil e [] es h)

-- Each declared name has a value.
abbrev AreGiven : List Text → Env → Type 0
AreGiven declared values =
    (w : Text) → contains declared w ≡ true → is_some (lookup values w) ≡ true

key-AreGiven :
    (r : Report) (k : Value) (declared : List Text)
    → ((key : Text) → k ≡ str key → is_some (lookup r.values (computed_name key)) ≡ true)
    → AreGiven declared r.values
    → AreGiven (declare_key k declared) r.values
key-AreGiven r null declared here h w c = h w c
key-AreGiven r other declared here h w c = h w c
key-AreGiven r (bool b) declared here h w c = h w c
key-AreGiven r (num n) declared here h w c = h w c
key-AreGiven r (str key) declared here h w c = elim (Bool-cases (w == computed_name key)) [
  | inl e ↦ rw ((text_beq_iff w (computed_name key)).0 e) (here key refl)
  | inr e ↦ h w (rw e at c)
]

declared_in-AreGiven :
    (r : Report) (es : List Entry) → All (HasValue r) es → AreGiven (declared_in es) r.values
declared_in-AreGiven r [] h w c = cc
declared_in-AreGiven r (e ∷ es) (h, hs) w c =
    key-AreGiven r e.key (declared_in es) h (declared_in-AreGiven r es hs) w c

must_fill_lem :
    (declared : List Text) (values : Env) (name : Text) (d empty : Bool)
    → AreGiven declared values
    → (must_fill declared values name d && empty) ≡ false
    → d ≡ false
    → contains namespaces (namespace_of name) ≡ true
    → empty ≡ false
unfolding must_fill
must_fill_lem declared values name d empty given h e c = ground (arith, given name, e, c, h)

token_errors-Filled :
    (x : Explainer) (n : Node) (declared : List Text) (values : Env) (vars : Variables)
    (ts : List (Text × Bool))
    → AreGiven declared values
    → token_errors x n declared values vars ts ≡ []
    → All (Filled vars) ts
unfolding token_errors
token_errors-Filled x n declared values vars [] given h = tt
token_errors-Filled x n declared values vars ((name, d) ∷ ts) given h =
    elim (Bool-cases (must_fill declared values name d && is_null (variable vars name))) [
      | inl e ↦ cc
      | inr e ↦ (
        must_fill_lem declared values name d (is_null (variable vars name)) given e,
        token_errors-Filled x n declared values vars ts given (rw e at h),
      )
    ]

port_fact_drift-Undrifted :
    (b : Baseline) (x : Explainer) (n : Node) (names : List Text) (vars : Variables)
    → port_fact_drift b x n names vars ≡ []
    → All (Undrifted b x n vars) names
unfolding port_fact_drift
port_fact_drift-Undrifted b x n [] vars h = tt
port_fact_drift-Undrifted b x n (name ∷ names) vars h =
    let was = variable (baseline_frame b x n name).0 name in
    elim (Bool-cases (is_port_token name && has_drifted was (variable vars name))) [
      | inl e ↦ cc
      | inr e ↦ (λ p. rw p at e, port_fact_drift-Undrifted b x n names vars (rw e at h))
    ]

baseline_inj : (a b : Baseline) → some a ≡ some b → a ≡ b
baseline_inj a b h = cc

drift_of-Undrifted :
    (baseline : Option Baseline) (x : Explainer) (n : Node) (names : List Text) (vars : Variables)
    → drift_of baseline x n names vars ≡ []
    → (b : Baseline) → baseline ≡ some b
    → All (Undrifted b x n vars) names
drift_of-Undrifted none x n names vars h b e = cc
drift_of-Undrifted (some a) x n names vars h b e =
    subst (λ d. All (Undrifted d x n vars) names) (baseline_inj a b e)
      (port_fact_drift-Undrifted a x n names vars h)

map-eq-nil {ℓ κ} : {A : Type ℓ} {B : Type κ} (f : A → B) (xs : List A) → map f xs ≡ [] → xs ≡ []
map-eq-nil f [] h = refl
map-eq-nil f (x ∷ xs) h = cc

-- The block of a step, as a list or not.
abbrev Reports : Option Baseline → Explainer → Variables → Node → PlaybookRow → Report → Type 0
Reports baseline x shared n pb r =
    evaluate_all (entries (entries_of pb.computed)) (step_variables shared n) ≡ ok r
    → report_errors baseline x (step_variables shared n) n pb r ≡ []
    → StepReady baseline x shared (n, pb)

listed : (n : Node) (c : Computed) → shape_errors n c ≡ [] → entries (entries_of c) ≡ c
listed n (entries es) h = refl
listed n not_a_list h = cc

declared_names-AreGiven :
    (r : Report) (c : Computed) (vars : Variables)
    → evaluate_all (entries (entries_of c)) vars ≡ ok r
    → IsClean r
    → AreGiven (declared_names c) r.values
unfolding declared_names
declared_names-AreGiven r (entries es) vars e clean w c =
    declared_in-AreGiven r es (evaluate_all-HasValue es vars r e clean) w c
declared_names-AreGiven r not_a_list vars e clean w c = cc

report_errors-StepReady :
    (baseline : Option Baseline) (x : Explainer) (shared : Variables) (n : Node) (pb : PlaybookRow)
    (r : Report)
    → Reports baseline x shared n pb r
unfolding report_errors
report_errors-StepReady baseline x shared n pb r e h =
    let (shape, h1) = append-eq-nil (shape_errors n pb.computed) _ h in
    let (failed, h2) = append-eq-nil (compute_errors n r.errors) _ h1 in
    let (absent, h3) = append-eq-nil (map (explain x n) r.missing) _ h2 in
    let (broken, h4) = append-eq-nil _ _ h3 in
    let (tokens, drift) = append-eq-nil _ _ h4 in
    let clean : IsClean r =
      (map-eq-nil _ r.errors failed, map-eq-nil (explain x n) r.missing absent) in
    (
      r,
      rw (sym (listed n pb.computed shape)) e,
      clean,
      map-eq-nil _ (step_tokens pb.texts).malformed broken,
      token_errors-Filled x n (declared_names pb.computed) r.values _ _
          (declared_names-AreGiven r pb.computed _ e clean) tokens,
      drift_of-Undrifted baseline x n (names_read pb) _ drift,
    )

step_errors-Yields :
    (baseline : Option Baseline) (x : Explainer) (shared : Variables) (n : Node) (pb : PlaybookRow)
    → Yields
        (λ es. es ≡ [] → StepReady baseline x shared (n, pb))
        (step_errors baseline x shared n pb)
unfolding step_errors
step_errors-Yields baseline x shared n pb =
    let (r, e, sound) = evaluate_all-IsSound (entries_of pb.computed) (step_variables shared n) in
    rw e (report_errors-StepReady baseline x shared n pb r e)

all_errors-Yields :
    (baseline : Option Baseline) (x : Explainer) (shared : Variables)
    (steps : List (Node × PlaybookRow))
    → Yields
        (λ es. es ≡ [] → All (StepReady baseline x shared) steps)
        (all_errors baseline x shared steps)
unfolding all_errors
all_errors-Yields baseline x shared [] = λ h. tt
all_errors-Yields baseline x shared ((n, pb) ∷ steps) =
    Yields-bind (λ es. es ≡ [] → StepReady baseline x shared (n, pb)) _
      (step_errors baseline x shared n pb) _ (step_errors-Yields baseline x shared n pb)
      λ here first.
        Yields-bind (λ es. es ≡ [] → All (StepReady baseline x shared) steps) _
          (all_errors baseline x shared steps) _ (all_errors-Yields baseline x shared steps)
          λ more rest h. let (a, b) = append-eq-nil here more h in (first a, rest b)

pub refusals-Yields :
    (baseline : Option Baseline) (x : Explainer) (shared : Variables)
    (steps : List (Node × PlaybookRow))
    → Yields
        (λ es. es ≡ [] → All (StepReady baseline x shared) steps)
        (refusals baseline x shared steps)
unfolding refusals
refusals-Yields baseline x shared steps =
    Yields-bind (λ es. es ≡ [] → All (StepReady baseline x shared) steps) _
      (all_errors baseline x shared steps) _ (all_errors-Yields baseline x shared steps)
      λ es ready h. ready (unique-eq-nil es h)

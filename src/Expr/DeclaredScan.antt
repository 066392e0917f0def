-- ===== src/Expr/DeclaredScan.antt =====
-- One entry of `evaluate_all` of playbook_expr.py: where nothing is missing and the earlier keys have
-- values, it is not skipped.
use models_utils.Prelude.{
  ◌≡◌, ◌≢◌, refl, Bool, true, false, ◌&&◌, not, Option, none, some, List, [], ◌∷◌, ◌++◌, Text,
  codes, ◌==◌, text_eq, append-ne-nil, contains, lookup, assign, is_some, arith, Bool-cases,
  Option-cases, inl, inr, if◌then◌else◌,
}
use models_utils.Prelude.Int.{ℤ}
use models_utils.Expr.Codes.{
  Code, Result, ok, err, key_error, out_of_fuel, ◌>>=◌, is_prefix, is_secret_name, require, range,
}
use models_utils.Expr.Parser.{Tree, parse, names}
use models_utils.Expr.Eval.{Env, evaluate, Value, null, other, bool, num, str, coerce_operand}
use models_utils.Expr.Block.{
  Entry, Scan, Report, Variables, variable, computed_name, scan_computed, scan_value, scan_name,
  scan_names, proceed, is_bound, in_range, finish, attempt,
}

abbrev pub Gives {ℓ κ} : {A : Type ℓ} → (A → Type κ) → Result A → Type κ
Gives P (ok a) = P a
Gives P _ = Unit

-- Each declared name but `own` has a value.
abbrev pub HasBut : Text → Env → List Text → Type 0
HasBut own values declared =
    (w : Text) → contains declared w ≡ true → (w == own) ≡ false → is_some (lookup values w) ≡ true

-- Where `H` holds, a scan that adds no missing name does not start to skip.
abbrev Keeps : Type 0 → Scan → Scan → Type 0
Keeps H s s' = s'.absent ≡ [] → (s.absent ≡ []) × (H → s.skip ≡ false → s'.skip ≡ false)

not_added : (ns : List Text) (w : Text) → (if contains ns w then ns else ns ++ w ∷ []) ≢ []
not_added [] w h = cc
not_added (n ∷ ns) w h = elim (Bool-cases (contains (n ∷ ns) w)) [
  | inl e ↦ cc
  | inr e ↦ absurd (append-ne-nil (n ∷ ns) w (rw e at h))
]

scan_computed-Keeps :
    (values : Env) (declared : List Text) (own w : Text) (s : Scan)
    → Gives (Keeps (HasBut own values declared) s) (scan_computed values declared own w s)
unfolding scan_computed
scan_computed-Keeps values declared own w s = elim (Option-cases (lookup values w)) [
  | inr (x, e) ↦ rw e (λ a. (a, λ h k. k))
  | inl e ↦ elim (Bool-cases (contains declared w && not (w == own))) [
    | inl t ↦ rw (e, t) (λ a. (a, λ h k. ground (arith, h w)))
    | inr t ↦ rw (e, t) tt
  ]
]

module _ (H : Type 0) where
  coerced-Keeps :
      (w : Text) (s : Scan) (m : Result ℤ)
      → Gives (Keeps H s) (m >>= λ x. ok (record s { env = assign s.env w x }))
  coerced-Keeps w s (ok x) = λ a. (a, λ h k. k)
  coerced-Keeps w s (err c) = tt
  coerced-Keeps w s key_error = tt
  coerced-Keeps w s out_of_fuel = tt

  scan_value-Keeps : (w : Text) (v : Value) (s : Scan) → Gives (Keeps H s) (scan_value w v s)
  unfolding scan_value
  scan_value-Keeps w null s = λ a. absurd (not_added s.absent w a)
  scan_value-Keeps w other s = coerced-Keeps w s (coerce_operand w other)
  scan_value-Keeps w (bool x) s = coerced-Keeps w s (coerce_operand w (bool x))
  scan_value-Keeps w (num x) s = coerced-Keeps w s (coerce_operand w (num x))
  scan_value-Keeps w (str x) s = coerced-Keeps w s (coerce_operand w (str x))

scan_name-Keeps :
    (values : Env) (declared : List Text) (own : Text) (vars : Variables) (w : Text) (s : Scan)
    → Gives (Keeps (HasBut own values declared) s) (scan_name values declared own vars w s)
unfolding scan_name
scan_name-Keeps values declared own vars w s = elim (Bool-cases (is_secret_name w)) [
  | inl e ↦ rw e tt
  | inr e ↦ elim (Bool-cases (is_prefix (codes "computed.") w)) [
    | inl t ↦ rw (e, t) (scan_computed-Keeps values declared own w s)
    | inr t ↦ rw (e, t) (scan_value-Keeps (HasBut own values declared) w (variable vars w) s)
  ]
]

-- A pass over all names, from the names that are missing then and the state of the scan.
abbrev PassKeeps : Type 0 → Scan → List Text × Result Scan → Type 0
PassKeeps H s (missing, m) =
    missing ≡ [] → (s.absent ≡ []) × (H → s.skip ≡ false → Gives (λ (s' : Scan). s'.skip ≡ false) m)

proceed-Keeps :
    (H : Type 0) (s : Scan) (m : Result Scan) (k : Scan → List Text × Result Scan)
    → Gives (Keeps H s) m
    → ((s' : Scan) → PassKeeps H s' (k s'))
    → PassKeeps H s (proceed s.absent m k)
proceed-Keeps H s (ok s') k h rest missing =
    let (a, later) = rest s' missing in let (b, here) = h a in (b, λ x go. later x (here x go))
proceed-Keeps H s (err c) k h rest missing = (missing, λ x go. tt)
proceed-Keeps H s key_error k h rest missing = (missing, λ x go. tt)
proceed-Keeps H s out_of_fuel k h rest missing = (missing, λ x go. tt)

scan_names-Keeps :
    (values : Env) (declared : List Text) (own : Text) (vars : Variables) (ws : List Text)
    (s : Scan)
    → PassKeeps (HasBut own values declared) s (scan_names values declared own vars ws s)
unfolding scan_names
scan_names-Keeps values declared own vars [] s = λ a. (a, λ h go. go)
scan_names-Keeps values declared own vars (w ∷ ws) s =
    proceed-Keeps (HasBut own values declared) s (scan_name values declared own vars w s)
      (λ s'. scan_names values declared own vars ws s')
      (scan_name-Keeps values declared own vars w s)
      (λ s'. scan_names-Keeps values declared own vars ws s')

-- A result that is no skip.
abbrev IsValue : Option ℤ → Type 0
IsValue none = ⊥
IsValue (some x) = Unit

checked-IsValue : (b : Bool) (c : Code) (x : ℤ) → Gives IsValue (require b c >>= λ u. ok (some x))
checked-IsValue true c x = tt
checked-IsValue false c x = tt

finish-IsValue :
    (e : Entry) (s : Scan) (m : Result ℤ) → s.skip ≡ false → Gives IsValue (finish e s m)
unfolding finish
finish-IsValue e s (ok x) h = rw h (checked-IsValue (in_range e.min e.max x) range x)
finish-IsValue e s (err c) h = rw h tt
finish-IsValue e s key_error h = rw h tt
finish-IsValue e s out_of_fuel h = rw h tt

-- The `try` block: with nothing missing, and a value for each other declared key, it gives a value.
abbrev pub TryKeeps : Report → Text → List Text × Result (Option ℤ) → Type 0
TryKeeps r own (missing, m) =
    missing ≡ [] → (r.missing ≡ []) × (HasBut own r.values r.declared → Gives IsValue m)

evaluated-IsValue :
    (e : Entry) (t : Tree) (m : Result Scan)
    → Gives (λ (s : Scan). s.skip ≡ false) m
    → Gives IsValue (m >>= λ s. finish e s (evaluate t s.env))
evaluated-IsValue e t (ok s) h = finish-IsValue e s (evaluate t s.env) h
evaluated-IsValue e t (err c) h = tt
evaluated-IsValue e t key_error h = tt
evaluated-IsValue e t out_of_fuel h = tt

scanned-Keeps :
    (r : Report) (key : Text) (e : Entry) (vars : Variables) (m : Result Tree)
    → TryKeeps r (computed_name key) (
        proceed r.missing m λ tree.
          let (missing, scanned) =
            scan_names r.values r.declared
              (computed_name key)
              vars
              (names tree)
              (record { env = []; skip = false; absent = r.missing }) in
          (missing, scanned >>= λ s. finish e s (evaluate tree s.env)))
scanned-Keeps r key e vars (ok t) none_missing =
    let (a, h) =
      scan_names-Keeps r.values r.declared (computed_name key) vars (names t)
        (record { env = []; skip = false; absent = r.missing }) none_missing in
    (a, λ has. evaluated-IsValue e t _ (h has refl))
scanned-Keeps r key e vars (err c) missing = (missing, λ has. tt)
scanned-Keeps r key e vars key_error missing = (missing, λ has. tt)
scanned-Keeps r key e vars out_of_fuel missing = (missing, λ has. tt)

pub attempt-Keeps :
    (r : Report) (key expr : Text) (e : Entry) (vars : Variables)
    → TryKeeps r (computed_name key) (attempt r key expr e vars)
unfolding attempt
attempt-Keeps r key expr e vars = elim (Bool-cases (is_bound e.min && is_bound e.max)) [
  | inl h ↦ rw h (scanned-Keeps r key e vars (parse expr))
  | inr h ↦ rw h (λ a. (a, λ has. tt))
]

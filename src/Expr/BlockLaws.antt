-- ===== src/Expr/BlockLaws.antt =====
-- `evaluate_all` of playbook_expr.py: it always reports, and what it reports.
use mathlib.Core.List.{Memᴰ}
use models_utils.Prelude.{
  arith, ◌≡◌, refl, subst, true, false, ◌&&◌, Option, none, some, List, [], ◌∷◌, Text, text_eq,
  lookup, assign, lookup-assign, All, Bool-cases, &&-eq-true, inl, inr,
}
use models_utils.Prelude.Int.{ℤ, ◌≤ℤ◌}
use models_utils.Expr.Codes.{Result, ok, range}
use models_utils.Expr.Ensures.{Ensures, returned, raised, Ensures-if, Ensures-bind, Ensures-require}
use models_utils.Expr.Tokens.{IsToken}
use models_utils.Expr.Totality.{Leaves, parse-Ensures}
use models_utils.Expr.Names.{names-All}
use models_utils.Expr.Arith.{IsBounded, Defines, evaluate-Ensures}
use models_utils.Expr.Parser.{Tree, names}
use models_utils.Expr.Eval.{evaluate, Value, num, str}
use models_utils.Expr.Block.{
  Entry, Scan, Report, Variables, finish, settle, step, run_entries, evaluate_all, entries, declare,
  empty_report, in_range, above, below, attempt, is_bound, computed_name,
}
use models_utils.Expr.ScanLaws.{AllBounded, Covers, Ensures-proceed, scan_names-Ensures}

-- The value is not below the declared minimum, and not above the declared maximum.
abbrev pub AtLeast : Value → ℤ → Type 0
AtLeast (num l) x = l ≤ℤ x
AtLeast _ x = Unit

abbrev pub AtMost : Value → ℤ → Type 0
AtMost (num h) x = x ≤ℤ h
AtMost _ x = Unit

abbrev pub Within : Entry → ℤ → Type 0
Within e x = AtLeast e.min x × AtMost e.max x

above_lem : (low : Value) (x : ℤ) → above low x ≡ true → AtLeast low x
above_lem (num l) x h = ground arith
above_lem _ x h = tt

below_lem : (high : Value) (x : ℤ) → below high x ≡ true → AtMost high x
below_lem (num l) x h = ground arith
below_lem _ x h = tt

in_range-Within : (e : Entry) (x : ℤ) → in_range e.min e.max x ≡ true → Within e x
unfolding in_range
in_range-Within e x h =
    let (low, high) = &&-eq-true (above e.min x) (below e.max x) h in
    (above_lem e.min x low, below_lem e.max x high)

-- A value that an entry gives lies in its declared bounds and within the limit; none is a skip.
abbrev pub Accepted : Entry → Option ℤ → Type 0
Accepted e none = Unit
Accepted e (some x) = IsBounded x × Within e x

defined_of_Covers :
    (s : Scan) (ws : List Text) → s.skip ≡ false → All (Covers s) ws → All (Defines s.env) ws
defined_of_Covers s [] h c = tt
defined_of_Covers s (w ∷ ws) h (inl k, c) = cc
defined_of_Covers s (w ∷ ws) h (inr d, c) = (d, defined_of_Covers s ws h c)

finish-Ensures :
    (e : Entry) (s : Scan) (t : Tree)
    → Leaves IsToken t
    → All (Covers s) (names t)
    → Ensures (Accepted e) (finish e s (evaluate t s.env))
unfolding finish
finish-Ensures e s t l c =
    Ensures-if s.skip (λ _. returned tt)
      λ go.
        Ensures-bind
          (evaluate-Ensures t s.env l
            (names-All (Defines s.env) t (defined_of_Covers s (names t) go c)))
          λ x b.
            Ensures-require (in_range e.min e.max x) range (ok (some x))
              λ r. returned (b, in_range-Within e x r)

pub attempt-Ensures :
    (r : Report) (key expr : Text) (e : Entry) (vars : Variables)
    → AllBounded r.values
    → Ensures (Accepted e) (attempt r key expr e vars).1
unfolding attempt
attempt-Ensures r key expr e vars b = elim (Bool-cases (is_bound e.min && is_bound e.max)) [
  | inr h ↦ rw h raised
  | inl h ↦ rw h (
      Ensures-proceed r.missing _ (parse-Ensures expr) λ t l.
        Ensures-bind (scan_names-Ensures r.values r.declared (computed_name key) vars (names t) _ b)
          λ s (g, c). finish-Ensures e s t l c)
]

-- The report after some entries: values are within the limit, and each is in the declared bounds
-- of an entry of its key.
abbrev pub Justified : List Entry → Text → ℤ → Type 0
Justified es w x =
    (key : Text) × (e : Entry) × Memᴰ e es
    × (e.key ≡ str key)
    × (w ≡ computed_name key)
    × Within e x

abbrev pub IsSound : List Entry → Report → Type 0
IsSound es r = (w : Text) (x : ℤ) → lookup r.values w ≡ some x → IsBounded x × Justified es w x

-- A step that comes to an end with a sound report.
abbrev Lands : List Entry → Result Report → Type 0
Lands es m = (r : Report) × (m ≡ ok r) × IsSound es r

some_inj : (x y : ℤ) → some x ≡ some y → x ≡ y
some_inj x y h = cc

assign-IsSound :
    (es : List Entry) (r : Report) (key : Text) (x : ℤ)
    → IsSound es r
    → IsBounded x × Justified es (computed_name key) x
    → (w : Text) (y : ℤ) → lookup (assign r.values (computed_name key) x) w ≡ some y
    → IsBounded y × Justified es w y
assign-IsSound es r key x h new w y e = elim (Bool-cases (text_eq.beq (computed_name key) w)) [
  | inl p ↦
      subst (λ v. IsBounded y × Justified es v y) ((text_eq.beq_iff (computed_name key) w).0 p)
        (subst (λ z. IsBounded z × Justified es (computed_name key) z)
          (some_inj x y (rw (lookup-assign r.values (computed_name key) w x, p) at e)) new)
  | inr p ↦ h w y (rw (lookup-assign r.values (computed_name key) w x, p) at e)
]

settle-Lands :
    (es : List Entry) (r : Report) (key : Text) (e : Entry) (missing : List Text)
    {m : Result (Option ℤ)}
    → Memᴰ e es
    → e.key ≡ str key
    → IsSound es r
    → Ensures (Accepted e) m
    → Lands es (settle r key (missing, m))
unfolding settle
settle-Lands es r key e missing i k h (returned {a = none} a) = (_, refl, h)
settle-Lands es r key e missing i k h (returned {a = some x} a) =
    (_, refl, assign-IsSound es r key x h (a.0, (key, e, i, k, refl, a.1)))
settle-Lands es r key e missing i k h raised = (_, refl, h)

step-Lands :
    (es : List Entry) (vars : Variables) (k x : Value) (e : Entry) (r : Report)
    → Memᴰ e es
    → e.key ≡ k
    → IsSound es r
    → Lands es (step vars k x e r)
unfolding step
step-Lands es vars (str key) (str expr) e r i k h =
    settle-Lands es (declare key r) key e (attempt (declare key r) key expr e vars).0 i k h
      (attempt-Ensures (declare key r) key expr e vars (λ w x q. (h w x q).0))
step-Lands es vars (str key) _ e r i k h = (_, refl, h)
step-Lands es vars _ _ e r i k h = (_, refl, h)

run_entries-Lands :
    (all_entries es : List Entry) (vars : Variables) (r : Report)
    → All (λ e. Memᴰ e all_entries) es
    → IsSound all_entries r
    → Lands all_entries (run_entries vars es r)
unfolding run_entries
run_entries-Lands a [] vars r i h = (r, refl, h)
run_entries-Lands a (e ∷ es) vars r i h =
    let (r', p, h') = step-Lands a vars e.key e.expr e r i.0 refl h in
    rw p (run_entries-Lands a es vars r' i.1 h')

All-Mem :
    (es more : List Entry) → ((e : Entry) → Memᴰ e es → Memᴰ e more) → All (λ e. Memᴰ e more) es
All-Mem [] more f = tt
All-Mem (e ∷ es) more f = (f e (Memᴰ.head refl), All-Mem es more λ d m. f d (Memᴰ.tail m))

-- A declared block always gives a report, whatever the entries and the variables: no exception
-- leaves the loop. Every value of the report satisfies |x| <= 2^31 - 1 and lies within the min and
-- max of an entry of its key.
pub evaluate_all-IsSound :
    (es : List Entry) (vars : Variables)
    → (r : Report) × (evaluate_all (entries es) vars ≡ ok r) × IsSound es r
unfolding evaluate_all
evaluate_all-IsSound es vars =
    run_entries-Lands es es vars empty_report (All-Mem es es λ e m. m) λ w x q. cc

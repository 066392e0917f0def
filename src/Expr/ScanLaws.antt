-- ===== src/Expr/ScanLaws.antt =====
-- The loop over the names of one entry, of `evaluate_all` of playbook_expr.py.
use models_utils.Prelude.{
  ◌≡◌, refl, true, ◌&&◌, not, some, List, [], ◌∷◌, Text, text_eq, ◌==◌, contains, lookup, assign,
  lookup-assign, codes, ◌⊎◌, All, Bool-cases, inl, inr,
}
use models_utils.Prelude.Int.{ℤ}
use models_utils.Expr.Codes.{Result, is_prefix, is_secret_name}
use models_utils.Expr.Ensures.{
  Ensures, returned, raised, Ensures-if, Ensures-bind, Ensures-choose, Ensures-weaken,
}
use models_utils.Expr.Arith.{IsBounded, Defines, coerce_operand-Ensures}
use models_utils.Expr.Eval.{Env, Value, null}
use models_utils.Expr.Block.{
  Scan, Variables, variable, scan_computed, scan_value, scan_name, scan_names, proceed,
}

-- Every value that can be read is within the limit.
abbrev pub AllBounded : Env → Type 0
AllBounded env = (w : Text) (x : ℤ) → lookup env w ≡ some x → IsBounded x

-- The name is bound to a bounded value, or the entry is to be skipped.
abbrev pub Covers : Scan → Text → Type 0
Covers s w = (s.skip ≡ true) ⊎ Defines s.env w

-- A step of the scan keeps every name that is covered.
abbrev Grows : Scan → Scan → Type 0
Grows s s' = (w : Text) → Covers s w → Covers s' w

Defines-assign :
    (env : Env) (k w : Text) (x : ℤ) → IsBounded x → Defines env w → Defines (assign env k x) w
Defines-assign env k w x b (y, e, c) = elim (Bool-cases (text_eq.beq k w)) [
  | inl h ↦ (x, rw (lookup-assign env k w x, h), b)
  | inr h ↦ (y, rw (lookup-assign env k w x, h) e, c)
]

Defines-assign_self : (env : Env) (w : Text) (x : ℤ) → IsBounded x → Defines (assign env w x) w
Defines-assign_self env w x b = (x, rw (lookup-assign env w w x, (text_eq.beq_iff w w).1 refl), b)

-- What one successful step of the scan for `w` gives.
abbrev Scanned : Text → Scan → Scan → Type 0
Scanned w s s' = Grows s s' × Covers s' w

bind_value :
    (w : Text) (s : Scan) (x : ℤ) → IsBounded x → Scanned w s (record s { env = assign s.env w x })
bind_value w s x b = (
  λ v. elim [ inl h ↦ inl h | inr d ↦ inr (Defines-assign s.env w v x b d) ],
  inr (Defines-assign_self s.env w x b),
)

scan_computed-Ensures :
    (values : Env) (declared : List Text) (own w : Text) (s : Scan)
    → AllBounded values
    → Ensures (Scanned w s) (scan_computed values declared own w s)
unfolding scan_computed
scan_computed-Ensures values declared own w s b =
    Ensures-choose (lookup values w)
      (λ _.
        Ensures-if (contains declared w && not (w == own))
          (λ _. returned (λ v c. inl refl, inl refl)) (λ _. raised))
      (λ x e. returned (bind_value w s x (b w x e)))

scan_value-Ensures : (w : Text) (v : Value) (s : Scan) → Ensures (Scanned w s) (scan_value w v s)
unfolding scan_value
scan_value-Ensures w null s = returned (λ v c. inl refl, inl refl)
scan_value-Ensures w v s =
    Ensures-bind (coerce_operand-Ensures w v) λ x (b, _). returned (bind_value w s x b)

scan_name-Ensures :
    (values : Env) (declared : List Text) (own : Text) (vars : Variables) (w : Text) (s : Scan)
    → AllBounded values
    → Ensures (Scanned w s) (scan_name values declared own vars w s)
unfolding scan_name
scan_name-Ensures values declared own vars w s b =
    Ensures-if (is_secret_name w) (λ _. raised)
      λ _.
        Ensures-if (is_prefix (codes "computed.") w)
          (λ _. scan_computed-Ensures values declared own w s b)
          (λ _. scan_value-Ensures w (variable vars w) s)

pub Ensures-proceed {ℓ κ} :
    {A B : Type 0} {P : A → Type ℓ} {Q : B → Type κ} {r : Result A} (missing : List Text)
    (k : A → List Text × Result B)
    → Ensures P r
    → ((a : A) → P a → Ensures Q (k a).1)
    → Ensures Q (proceed missing r k).1
Ensures-proceed missing k (returned {a} h) g = g a h
Ensures-proceed missing k raised g = raised

pub scan_names-Ensures :
    (values : Env) (declared : List Text) (own : Text) (vars : Variables) (ws : List Text)
    (s : Scan)
    → AllBounded values
    → Ensures (λ s'. Grows s s' × All (Covers s') ws) (scan_names values declared own vars ws s).1
unfolding scan_names
scan_names-Ensures values declared own vars [] s b = returned (λ w c. c, tt)
scan_names-Ensures values declared own vars (w ∷ ws) s b =
    Ensures-proceed s.absent _ (scan_name-Ensures values declared own vars w s b) λ s' (g, c).
      Ensures-weaken (λ s'' (g', cs). (λ v k. g' v (g v k), (g' w c, cs)))
        (scan_names-Ensures values declared own vars ws s' b)

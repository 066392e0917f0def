-- ===== src/Expr/Fuel.antt =====
-- More fuel does not change what the parser of playbook_expr.py returns.
use mathlib.Core.List.{tail}
use models_utils.Prelude.{
  ℕ, zero, suc, ◌+◌, ◌≡◌, ◌≢◌, refl, sym, ◌∙◌, ap, Bool, true, false, Option, none, some, List, ◌∷◌,
  arith, leb, if◌then◌else◌,
}
use models_utils.Expr.Codes.{Result, ok, err, key_error, out_of_fuel, ◌>>=◌, choose, max_depth}
use models_utils.Expr.Lexer.{minus, left_paren, Token, op}
use models_utils.Expr.Parser.{
  Tree, bin, sum_op, product_op, parse_expr, expr_loop, parse_term, term_loop, parse_unary,
  parse_atom,
}

-- `m'` is `m`, unless `m` has run out of fuel.
abbrev pub Extends {ℓ} : {A : Type ℓ} → Result A → Result A → Type ℓ
Extends m' m = m ≢ out_of_fuel → m' ≡ m

module _ {ℓ κ} {A : Type ℓ} {B : Type κ} where
  Extends-bind :
      (m m' : Result A) (f f' : A → Result B)
      → Extends m' m
      → ((a : A) → Extends (f' a) (f a))
      → Extends (m' >>= f') (m >>= f)
  Extends-bind (ok a) m' f f' p q h = rw (p (λ e. cc)) (q a h)
  Extends-bind (err c) m' f f' p q h = rw (p (λ e. cc))
  Extends-bind key_error m' f f' p q h = rw (p (λ e. cc))
  Extends-bind out_of_fuel m' f f' p q h = absurd (h refl)

  Extends-choose :
      (o : Option A) (m : Result B) (f f' : A → Result B)
      → ((a : A) → Extends (f' a) (f a))
      → Extends (choose o m f') (choose o m f)
  Extends-choose none m f f' q h = refl
  Extends-choose (some a) m f f' q h = q a h

Extends-if {ℓ} :
    {A : Type ℓ} (b : Bool) (x y z : Result A)
    → Extends x y
    → Extends (if b then x else z) (if b then y else z)
Extends-if true x y z p h = p h
Extends-if false x y z p h = refl

mutual
  unfolding parse_expr

  expr-Extends : (f d : ℕ) (ts : List Token) → Extends (parse_expr (suc f) d ts) (parse_expr f d ts)
  expr-Extends zero d ts = λ h. absurd (h refl)
  expr-Extends (suc f) d ts =
      Extends-bind _ _ _ _ (term-Extends f d ts) λ (t, d', ts'). expr_loop-Extends f t d' ts'

  expr_loop-Extends :
      (f : ℕ) (t : Tree) (d : ℕ) (ts : List Token)
      → Extends (expr_loop (suc f) t d ts) (expr_loop f t d ts)
  expr_loop-Extends zero t d ts = λ h. absurd (h refl)
  expr_loop-Extends (suc f) t d ts = Extends-choose (sum_op ts) _ _ _ λ o.
      Extends-bind _ _ _ _ (term-Extends f d (tail ts))
        λ (u, d', ts'). expr_loop-Extends f (bin o t u) d' ts'

  term-Extends : (f d : ℕ) (ts : List Token) → Extends (parse_term (suc f) d ts) (parse_term f d ts)
  term-Extends zero d ts = λ h. absurd (h refl)
  term-Extends (suc f) d ts =
      Extends-bind _ _ _ _ (unary-Extends f d ts) λ (t, d', ts'). term_loop-Extends f t d' ts'

  term_loop-Extends :
      (f : ℕ) (t : Tree) (d : ℕ) (ts : List Token)
      → Extends (term_loop (suc f) t d ts) (term_loop f t d ts)
  term_loop-Extends zero t d ts = λ h. absurd (h refl)
  term_loop-Extends (suc f) t d ts = Extends-choose (product_op ts) _ _ _ λ o.
      Extends-bind _ _ _ _ (unary-Extends f d (tail ts))
        λ (u, d', ts'). term_loop-Extends f (bin o t u) d' ts'

  unary-Extends :
      (f d : ℕ) (ts : List Token) → Extends (parse_unary (suc f) d ts) (parse_unary f d ts)
  unary-Extends zero d ts = λ h. absurd (h refl)
  unary-Extends (suc f) d (op minus ∷ ts) = Extends-bind _ _ _ _ (unary-Extends f d ts) λ r h. refl
  unary-Extends (suc f) d ts = atom-Extends f d ts

  atom-Extends : (f d : ℕ) (ts : List Token) → Extends (parse_atom (suc f) d ts) (parse_atom f d ts)
  atom-Extends zero d ts = λ h. absurd (h refl)
  atom-Extends (suc f) d (op left_paren ∷ ts) =
      Extends-if (leb (d + 1) max_depth) _ _ _
        (Extends-bind _ _ _ _ (expr-Extends f (d + 1) ts) λ r h. refl)
  atom-Extends (suc f) d _ = λ h. refl

-- From one step to any number of steps, for one family of runs.
pub Extends-le {ℓ} :
    {A : Type ℓ} (run : ℕ → Result A)
    → ((f : ℕ) → Extends (run (suc f)) (run f))
    → (k f : ℕ) → Extends (run (k + f)) (run f)
Extends-le run s zero f h = ap run (omega arith)
Extends-le run s (suc k) f h =
    let ih = Extends-le run s k f h in ap run (omega arith) ∙ s (k + f) (λ e. h (cc ih)) ∙ ih

-- Some amount of fuel gives the value.
abbrev pub Yields {ℓ} : {A : Type ℓ} → (ℕ → Result A) → A → Type ℓ
Yields run a = (f : ℕ) × (run f ≡ ok a)

-- The steps of a family of runs, as its users take them.
abbrev pub Grows {ℓ} : {A : Type ℓ} → (ℕ → Result A) → Type ℓ
Grows run = (f : ℕ) → Extends (run (suc f)) (run f)

module _ (d : ℕ) (ts : List Token) where
  pub expr-Grows : Grows (λ f. parse_expr f d ts)
  expr-Grows f = expr-Extends f d ts

  pub term-Grows : Grows (λ f. parse_term f d ts)
  term-Grows f = term-Extends f d ts

  pub unary-Grows : Grows (λ f. parse_unary f d ts)
  unary-Grows f = unary-Extends f d ts

  pub expr_loop-Grows : (t : Tree) → Grows (λ f. expr_loop f t d ts)
  expr_loop-Grows t f = expr_loop-Extends f t d ts

  pub term_loop-Grows : (t : Tree) → Grows (λ f. term_loop f t d ts)
  term_loop-Grows t f = term_loop-Extends f t d ts

-- Two runs, one after the other, on the sum of their fuels.
pub Yields-bind {ℓ κ} :
    {A : Type ℓ} {B : Type κ} (run : ℕ → Result A) (next : A → ℕ → Result B) (a : A) (b : B)
    → Grows run
    → Grows (next a)
    → Yields run a
    → Yields (next a) b
    → Yields (λ f. run f >>= λ x. next x f) b
Yields-bind run next a b g h (f, p) (k, q) =
    let first : run (k + f) ≡ ok a = Extends-le run g k f (λ e. cc) ∙ p in
    let second : next a (k + f) ≡ ok b =
      ap (next a) (omega arith) ∙ Extends-le (next a) h f k (λ e. cc) ∙ q in
    (k + f, rw first second)

-- A run that ends gives what any other fuel gives.
pub Yields-agrees {ℓ} :
    {A : Type ℓ} (run : ℕ → Result A) (a : A) (k : ℕ)
    → Grows run
    → Yields run a
    → run k ≢ out_of_fuel
    → run k ≡ ok a
Yields-agrees run a k g (f, p) h =
    sym (Extends-le run g f k h) ∙ ap run (omega arith) ∙ Extends-le run g k f (λ e. cc) ∙ p

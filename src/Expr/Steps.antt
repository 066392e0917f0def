-- ===== src/Expr/Steps.antt =====
-- The parser functions of playbook_expr.py from the runs of the ones that they call.
use models_utils.Prelude.{ℕ, suc, ◌≡◌, refl, ◌∙◌, none, List, ◌∷◌}
use models_utils.Expr.Codes.{Result, ◌>>=◌}
use models_utils.Expr.Lexer.{Token, op}
use models_utils.Expr.Parser.{
  BinOp, Tree, bin, sum_op, product_op, parse_expr, expr_loop, parse_term, term_loop, parse_unary,
}
use models_utils.Expr.Fuel.{
  Yields, Yields-bind, term-Grows, unary-Grows, expr_loop-Grows, term_loop-Grows,
}
use models_utils.Expr.Printer.{symbol}

-- One more unit of fuel, for a family that steps to another.
later {ℓ} :
    {A : Type ℓ} (run step : ℕ → Result A) (a : A)
    → ((f : ℕ) → run (suc f) ≡ step f)
    → Yields step a
    → Yields run a
later run step a e (f, p) = (suc f, e f ∙ p)

-- `term` from its first `unary`, and `expr` from its first `term`.
pub term_of_unary :
    (d d' : ℕ) (ts rest : List Token) (t : Tree) (r : Tree × ℕ × List Token)
    → Yields (λ f. parse_unary f d ts) (t, d', rest)
    → Yields (λ f. term_loop f t d' rest) r
    → Yields (λ f. parse_term f d ts) r
unfolding parse_term
term_of_unary d d' ts rest t r p q =
    later (λ f. parse_term f d ts) _ r (λ f. refl)
      (Yields-bind (λ f. parse_unary f d ts) (λ (u, e, us) f. term_loop f u e us) (t, d', rest) r
        (unary-Grows d ts) (term_loop-Grows d' rest t) p q)

pub expr_of_term :
    (d d' : ℕ) (ts rest : List Token) (t : Tree) (r : Tree × ℕ × List Token)
    → Yields (λ f. parse_term f d ts) (t, d', rest)
    → Yields (λ f. expr_loop f t d' rest) r
    → Yields (λ f. parse_expr f d ts) r
unfolding parse_expr
expr_of_term d d' ts rest t r p q =
    later (λ f. parse_expr f d ts) _ r (λ f. refl)
      (Yields-bind (λ f. parse_term f d ts) (λ (u, e, us) f. expr_loop f u e us) (t, d', rest) r
        (term-Grows d ts) (expr_loop-Grows d' rest t) p q)

pub expr_loop_ends :
    (t : Tree) (d : ℕ) (ts : List Token)
    → sum_op ts ≡ none
    → Yields (λ f. expr_loop f t d ts) (t, d, ts)
unfolding parse_expr
expr_loop_ends t d ts e = (1, rw e refl)

pub term_loop_ends :
    (t : Tree) (d : ℕ) (ts : List Token)
    → product_op ts ≡ none
    → Yields (λ f. term_loop f t d ts) (t, d, ts)
unfolding parse_expr
term_loop_ends t d ts e = (1, rw e refl)

-- One round of each loop.
pub expr_round :
    (o : BinOp) (t u : Tree) (d : ℕ) (ts rest : List Token) (r : Tree × ℕ × List Token)
    → ((f : ℕ)
        → expr_loop (suc f) t d (op (symbol o) ∷ ts)
          ≡ (parse_term f d ts >>= λ (v, e, us). expr_loop f (bin o t v) e us))
    → Yields (λ f. parse_term f d ts) (u, d, rest)
    → Yields (λ f. expr_loop f (bin o t u) d rest) r
    → Yields (λ f. expr_loop f t d (op (symbol o) ∷ ts)) r
expr_round o t u d ts rest r e p q =
    later (λ f. expr_loop f t d (op (symbol o) ∷ ts)) _ r e
      (Yields-bind (λ f. parse_term f d ts) (λ (v, e, us) f. expr_loop f (bin o t v) e us)
        (u, d, rest) r (term-Grows d ts) (expr_loop-Grows d rest (bin o t u)) p q)

pub term_round :
    (o : BinOp) (t u : Tree) (d : ℕ) (ts rest : List Token) (r : Tree × ℕ × List Token)
    → ((f : ℕ)
        → term_loop (suc f) t d (op (symbol o) ∷ ts)
          ≡ (parse_unary f d ts >>= λ (v, e, us). term_loop f (bin o t v) e us))
    → Yields (λ f. parse_unary f d ts) (u, d, rest)
    → Yields (λ f. term_loop f (bin o t u) d rest) r
    → Yields (λ f. term_loop f t d (op (symbol o) ∷ ts)) r
term_round o t u d ts rest r e p q =
    later (λ f. term_loop f t d (op (symbol o) ∷ ts)) _ r e
      (Yields-bind (λ f. parse_unary f d ts) (λ (v, e, us) f. term_loop f (bin o t v) e us)
        (u, d, rest) r (unary-Grows d ts) (term_loop-Grows d rest (bin o t u)) p q)

-- ===== src/Expr/Totality.antt =====
-- The parser of playbook_expr.py always comes to an end, and its trees hold checked tokens only.
use mathlib.Core.List.{tail}
use models_utils.Prelude.{
  ℕ, zero, suc, ◌+◌, ◌*◌, ◌≤◌, ◌<◌, ◌≡◌, refl, ◌∙◌, some, List, [], ◌∷◌, arith, leb, Text, length,
  All,
}
use models_utils.Expr.Codes.{max_depth}
use models_utils.Expr.Ensures.{
  Ensures, returned, raised, Ensures-weaken, Ensures-if, Ensures-choose, Ensures-bind,
}
use models_utils.Expr.Lexer.{minus, left_paren, right_paren, Token, op}
use models_utils.Expr.Tokens.{IsToken, tokenize-IsToken}
use models_utils.Expr.Parser.{
  BinOp, Tree, int, name, neg, bin, sum_op, product_op, close, parse_expr, expr_loop, parse_term,
  term_loop, parse_unary, parse_atom, whole, parse_tokens, parse, parse_fuel,
}

-- Every literal and every name of a tree, seen as a token, has the property.
abbrev pub Leaves : (Token → Type 0) → Tree → Type 0
Leaves P (int n) = P (Token.int n)
Leaves P (name w) = P (Token.name w)
Leaves P (neg t) = Leaves P t
Leaves P (bin o a b) = Leaves P a × Leaves P b

tail-lt_sum : (ts : List Token) (o : BinOp) → sum_op ts ≡ some o → length (tail ts) < length ts
unfolding sum_op
tail-lt_sum [] o h = cc
tail-lt_sum (t ∷ ts) o h = omega arith

tail-lt_product :
    (ts : List Token) (o : BinOp) → product_op ts ≡ some o → length (tail ts) < length ts
unfolding product_op
tail-lt_product [] o h = cc
tail-lt_product (t ∷ ts) o h = omega arith

module _ (P : Token → Type 0) where
  All-tail : (ts : List Token) → All P ts → All P (tail ts)
  All-tail [] h = tt
  All-tail (t ∷ ts) h = h.1

  -- A successful call leaves the nesting depth as it was, has read at least one token, and has
  -- kept the property.
  pub Consumed : ℕ → ℕ → Tree × ℕ × List Token → Type 0
  Consumed d n (t, d', ts) = (d' ≡ d) × (length ts < n) × Leaves P t × All P ts

  close-Ensures :
      (d n : ℕ) (r : Tree × ℕ × List Token)
      → Consumed (d + 1) n r
      → Ensures (Consumed d n) (close r)
  unfolding close Consumed
  close-Ensures d n (t, d', op right_paren ∷ rest) h =
      returned (omega arith, omega arith, h.2, h.3.1)
  close-Ensures d n (t, d', _) h = raised

  mutual
    unfolding parse_expr Consumed

    pub expr-Ensures :
        (f d : ℕ) (ts : List Token)
        → All P ts
        → 4 * length ts + 4 ≤ f
        → Ensures (Consumed d (length ts)) (parse_expr f d ts)
    expr-Ensures zero d ts a h = absurd (omega arith)
    expr-Ensures (suc f) d ts a h =
        Ensures-bind (term-Ensures f d ts a (omega arith)) λ (t, d', ts') (p, q, l, a').
          Ensures-weaken (λ _ (u, v, m, b). (u ∙ p, omega arith, m, b))
            (expr_loop-Ensures f t d' ts' l a' (omega arith))

    expr_loop-Ensures :
        (f : ℕ) (node : Tree) (d : ℕ) (ts : List Token)
        → Leaves P node
        → All P ts
        → 4 * length ts + 1 ≤ f
        → Ensures (Consumed d (suc (length ts))) (expr_loop f node d ts)
    expr_loop-Ensures zero node d ts l a h = absurd (omega arith)
    expr_loop-Ensures (suc f) node d ts l a h =
        Ensures-choose (sum_op ts) (λ _. returned (refl, omega arith, l, a))
          λ o e.
            let shorter = tail-lt_sum ts o e in
            Ensures-bind (term-Ensures f d (tail ts) (All-tail ts a) (omega arith))
              λ (t, d', ts') (p, q, m, a').
                Ensures-weaken (λ _ (u, v, m', b). (u ∙ p, omega arith, m', b))
                  (expr_loop-Ensures f (bin o node t) d' ts' (l, m) a' (omega arith))

    term-Ensures :
        (f d : ℕ) (ts : List Token)
        → All P ts
        → 4 * length ts + 3 ≤ f
        → Ensures (Consumed d (length ts)) (parse_term f d ts)
    term-Ensures zero d ts a h = absurd (omega arith)
    term-Ensures (suc f) d ts a h =
        Ensures-bind (unary-Ensures f d ts a (omega arith)) λ (t, d', ts') (p, q, l, a').
          Ensures-weaken (λ _ (u, v, m, b). (u ∙ p, omega arith, m, b))
            (term_loop-Ensures f t d' ts' l a' (omega arith))

    term_loop-Ensures :
        (f : ℕ) (node : Tree) (d : ℕ) (ts : List Token)
        → Leaves P node
        → All P ts
        → 4 * length ts + 1 ≤ f
        → Ensures (Consumed d (suc (length ts))) (term_loop f node d ts)
    term_loop-Ensures zero node d ts l a h = absurd (omega arith)
    term_loop-Ensures (suc f) node d ts l a h =
        Ensures-choose (product_op ts) (λ _. returned (refl, omega arith, l, a))
          λ o e.
            let shorter = tail-lt_product ts o e in
            Ensures-bind (unary-Ensures f d (tail ts) (All-tail ts a) (omega arith))
              λ (t, d', ts') (p, q, m, a').
                Ensures-weaken (λ _ (u, v, m', b). (u ∙ p, omega arith, m', b))
                  (term_loop-Ensures f (bin o node t) d' ts' (l, m) a' (omega arith))

    unary-Ensures :
        (f d : ℕ) (ts : List Token)
        → All P ts
        → 4 * length ts + 2 ≤ f
        → Ensures (Consumed d (length ts)) (parse_unary f d ts)
    unary-Ensures zero d ts a h = absurd (omega arith)
    unary-Ensures (suc f) d (op minus ∷ rest) a h =
        Ensures-bind (unary-Ensures f d rest a.1 (omega arith))
          λ (t, d', ts') (p, q, l, a'). returned (p, omega arith, l, a')
    unary-Ensures (suc f) d ts a h = atom-Ensures f d ts a (omega arith)

    atom-Ensures :
        (f d : ℕ) (ts : List Token)
        → All P ts
        → 4 * length ts + 1 ≤ f
        → Ensures (Consumed d (length ts)) (parse_atom f d ts)
    atom-Ensures zero d ts a h = absurd (omega arith)
    atom-Ensures (suc f) d (Token.int n ∷ rest) a h = returned (refl, omega arith, a.0, a.1)
    atom-Ensures (suc f) d (Token.name w ∷ rest) a h = returned (refl, omega arith, a.0, a.1)
    atom-Ensures (suc f) d (op left_paren ∷ rest) a h =
        Ensures-if (leb (d + 1) max_depth)
          (λ _. Ensures-bind (expr-Ensures f (d + 1) rest a.1 (omega arith)) λ r p.
            Ensures-weaken (λ _ q. (q.0, omega arith, q.2, q.3))
              (close-Ensures d (length rest) r p))
          (λ _. raised)
    atom-Ensures (suc f) d _ a h = raised

  whole-Ensures :
      (d n : ℕ) (r : Tree × ℕ × List Token) → Consumed d n r → Ensures (Leaves P) (whole r)
  unfolding whole Consumed
  whole-Ensures d n (t, d', []) h = returned h.2
  whole-Ensures d n (t, d', u ∷ us) h = raised

  pub parse_tokens-Ensures : (ts : List Token) → All P ts → Ensures (Leaves P) (parse_tokens ts)
  unfolding parse_tokens
  parse_tokens-Ensures ts a =
      Ensures-bind (expr-Ensures (parse_fuel ts) 0 ts a (omega arith))
        λ r h. whole-Ensures 0 (length ts) r h

All-Unit : (ts : List Token) → All (λ _. Unit {0}) ts
All-Unit [] = tt
All-Unit (t ∷ ts) = (tt, All-Unit ts)

-- A call of `expr` returns or raises; when it returns, the nesting depth is what it was at the
-- call, and at least one token has been read.
pub parse_expr-restores_depth :
    (d : ℕ) (ts : List Token)
    → Ensures
        (λ (tree, d', rest). (d' ≡ d) × (length rest < length ts))
        (parse_expr (parse_fuel ts) d ts)
unfolding Consumed
parse_expr-restores_depth d ts =
    Ensures-weaken (λ _ (p, q, l, a). (p, q))
      (expr-Ensures (λ _. Unit {0}) (parse_fuel ts) d ts (All-Unit ts) (omega arith))

-- `parse` returns a tree or raises an ExprError. Every literal of the tree is below 10^9, and
-- every name is one of the grammar in one of the namespaces.
pub parse-Ensures : (expr : Text) → Ensures (Leaves IsToken) (parse expr)
unfolding parse
parse-Ensures expr =
    Ensures-bind (tokenize-IsToken expr) λ ts (good, _). parse_tokens-Ensures IsToken ts good

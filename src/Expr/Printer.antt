-- ===== src/Expr/Printer.antt =====
-- A printer of the trees of playbook_expr.py, with as few parentheses as the grammar allows.
use Prim.Native.Nat.{max}
use models_utils.Prelude.{
  ℕ, suc, ◌+◌, ◌≤◌, ◌≡◌, Bool, true, false, none, List, [], ◌∷◌, ◌++◌, if◌then◌else◌,
}
use models_utils.Expr.Codes.{max_depth}
use models_utils.Expr.Lexer.{
  plus, minus, times, slash, percent, left_paren, right_paren, Op, Token, op,
}
use models_utils.Expr.Parser.{
  BinOp, add, sub, mul, div, rem, Tree, int, name, neg, bin, product_op, parse_expr, expr_loop,
  parse_term, term_loop, parse_unary,
}
use models_utils.Expr.Fuel.{Yields}

-- What a place of the grammar accepts without parentheses.
pub data Level : Type 0 where
  sum product factor : Level

-- The level of an operator and of its right operand; its left operand is of its own level.
abbrev pub level : BinOp → Level
level add = sum
level sub = sum
level _ = product

abbrev pub right_level : BinOp → Level
right_level add = product
right_level sub = product
right_level _ = factor

abbrev pub symbol : BinOp → Op
symbol add = plus
symbol sub = minus
symbol mul = times
symbol div = slash
symbol rem = percent

-- Whether an operator of the second level needs parentheses at a place of the first.
abbrev pub needs_parens : Level → Level → Bool
needs_parens factor m = true
needs_parens product sum = true
needs_parens _ _ = false

abbrev pub print : Level → Tree → List Token
print l (int n) = Token.int n ∷ []
print l (name w) = Token.name w ∷ []
print l (neg t) = op minus ∷ print factor t
print l (bin o a b) =
    let inside = print (level o) a ++ op (symbol o) ∷ print (right_level o) b in
    if needs_parens l (level o) then op left_paren ∷ (inside ++ op right_paren ∷ []) else inside

-- How deep the printed parentheses are nested.
abbrev pub nesting : Level → Tree → ℕ
nesting l (int n) = 0
nesting l (name w) = 0
nesting l (neg t) = nesting factor t
nesting l (bin o a b) =
    let inside = max (nesting (level o) a) (nesting (right_level o) b) in
    if needs_parens l (level o) then suc inside else inside

abbrev pub AtSum : Tree → Type 0
AtSum t =
    (d : ℕ) (rest : List Token) (r : Tree × ℕ × List Token)
    → product_op rest ≡ none
    → d + nesting sum t ≤ max_depth
    → Yields (λ f. expr_loop f t d rest) r
    → Yields (λ f. parse_expr f d (print sum t ++ rest)) r

abbrev pub AtProduct : Tree → Type 0
AtProduct t =
    (d : ℕ) (rest : List Token) (r : Tree × ℕ × List Token)
    → d + nesting product t ≤ max_depth
    → Yields (λ f. term_loop f t d rest) r
    → Yields (λ f. parse_term f d (print product t ++ rest)) r

abbrev pub AtFactor : Tree → Type 0
AtFactor t =
    (d : ℕ) (rest : List Token)
    → d + nesting factor t ≤ max_depth
    → Yields (λ f. parse_unary f d (print factor t ++ rest)) (t, d, rest)

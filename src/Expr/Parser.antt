-- ===== src/Expr/Parser.antt =====
-- database_utils/utils/playbook_expr.py: `_Parser`, `parse` and `names`.
-- The parser's position is the tokens that are left; `pos != len(tokens)` is "some are left".
use mathlib.Core.List.{tail}
use models_utils.Prelude.{
  ℕ, zero, suc, ◌+◌, ◌-◌, ◌*◌, Option, none, some, List, [], ◌∷◌, ◌++◌, leb, Text, text_eq,
  contains, length, if◌then◌else◌,
}
use models_utils.Expr.Codes.{Result, ok, err, out_of_fuel, syntax, limit, ◌>>=◌, choose, max_depth}
use models_utils.Expr.Lexer.{
  plus, minus, times, slash, percent, left_paren, right_paren, Token, op, tokenize,
}

pub data BinOp : Type 0 where
  add sub mul div rem : BinOp

-- The tuples ("int", n), ("name", s), ("neg", t) and (op, a, b).
pub data Tree : Type 0 where
  int : ℕ → Tree
  name : Text → Tree
  neg : Tree → Tree
  bin : BinOp → Tree → Tree → Tree

-- From `self.depth` and `self.tokens[self.pos:]` to a value and the two after the call.
abbrev pub Parser : Type 0
Parser = ℕ → List Token → Result (Tree × ℕ × List Token)

-- The operator that the `while` of `expr` takes at this head, or none.
unfoldable pub sum_op : List Token → Option BinOp
sum_op (op plus ∷ ts) = some add
sum_op (op minus ∷ ts) = some sub
sum_op _ = none

-- The operator that the `while` of `term` takes.
unfoldable pub product_op : List Token → Option BinOp
product_op (op times ∷ ts) = some mul
product_op (op slash ∷ ts) = some div
product_op (op percent ∷ ts) = some rem
product_op _ = none

-- the closing parenthesis, and `self.depth -= 1`
unfoldable pub close : Tree × ℕ × List Token → Result (Tree × ℕ × List Token)
close (node, d, op right_paren ∷ rest) = ok (node, d - 1, rest)
close (node, d, _) = err syntax

-- Each call costs a unit of fuel.
unfoldable mutual
  unfolding sum_op product_op close

  pub parse_expr : ℕ → Parser
  parse_expr zero d ts = out_of_fuel
  parse_expr (suc f) d ts = parse_term f d ts >>= λ (node, d', ts'). expr_loop f node d' ts'

  pub expr_loop : ℕ → Tree → Parser
  expr_loop zero node d ts = out_of_fuel
  expr_loop (suc f) node d ts =
      choose (sum_op ts) (ok (node, d, ts))
        λ o. parse_term f d (tail ts) >>= λ (right, d', ts'). expr_loop f (bin o node right) d' ts'

  pub parse_term : ℕ → Parser
  parse_term zero d ts = out_of_fuel
  parse_term (suc f) d ts = parse_unary f d ts >>= λ (node, d', ts'). term_loop f node d' ts'

  pub term_loop : ℕ → Tree → Parser
  term_loop zero node d ts = out_of_fuel
  term_loop (suc f) node d ts =
      choose (product_op ts) (ok (node, d, ts))
        λ o. parse_unary f d (tail ts) >>= λ (right, d', ts'). term_loop f (bin o node right) d' ts'

  pub parse_unary : ℕ → Parser
  parse_unary zero d ts = out_of_fuel
  parse_unary (suc f) d (op minus ∷ rest) =
      parse_unary f d rest >>= λ (node, d', ts'). ok (neg node, d', ts')
  parse_unary (suc f) d ts = parse_atom f d ts

  pub parse_atom : ℕ → Parser
  parse_atom zero d ts = out_of_fuel
  parse_atom (suc f) d (Token.int n ∷ rest) = ok (int n, d, rest)
  parse_atom (suc f) d (Token.name w ∷ rest) = ok (name w, d, rest)
  parse_atom (suc f) d (op left_paren ∷ rest) =
      let inner = parse_expr f (d + 1) rest >>= close in
      if leb (d + 1) max_depth then inner else err limit
  parse_atom (suc f) d _ = err syntax

-- `parser.pos != len(parser.tokens)` is an error
unfoldable pub whole : Tree × ℕ × List Token → Result Tree
whole (tree, d, []) = ok tree
whole (tree, d, t ∷ ts) = err syntax

abbrev pub parse_fuel : List Token → ℕ
parse_fuel ts = 4 * length ts + 5

unfoldable pub parse_tokens : List Token → Result Tree
unfolding parse_expr whole
parse_tokens ts = parse_expr (parse_fuel ts) 0 ts >>= whole

unfoldable pub parse : Text → Result Tree
unfolding tokenize parse_tokens
parse expr = tokenize expr >>= parse_tokens

-- The variable names of a tree from left to right, with the repeated ones.
abbrev pub occurrences : Tree → List Text
occurrences (int n) = []
occurrences (name w) = w ∷ []
occurrences (neg t) = occurrences t
occurrences (bin o a b) = occurrences a ++ occurrences b

-- `names`: the walk over a stack of trees; a push of the reversed children leaves the left one on top.
unfoldable pub walk : ℕ → List Tree → List Text → List Text
walk zero stack out = out
walk (suc f) [] out = out
walk (suc f) (int n ∷ stack) out = walk f stack out
walk (suc f) (name w ∷ stack) out = walk f stack (if contains out w then out else out ++ w ∷ [])
walk (suc f) (neg t ∷ stack) out = walk f (t ∷ stack) out
walk (suc f) (bin o a b ∷ stack) out = walk f (a ∷ b ∷ stack) out

abbrev pub nodes : Tree → ℕ
nodes (int n) = 1
nodes (name w) = 1
nodes (neg t) = suc (nodes t)
nodes (bin o a b) = suc (nodes a + nodes b)

unfoldable pub names : Tree → List Text
unfolding walk
names tree = walk (nodes tree) (tree ∷ []) []

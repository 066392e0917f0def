-- ===== src/Expr/RoundTrip.antt =====
-- The parser of playbook_expr.py reads back what the printer writes.
use models_utils.Prelude.{
  ℕ, suc, ◌+◌, ◌≤◌, ◌≡◌, refl, sym, ◌∙◌, ap, List, [], ◌∷◌, ◌++◌, append_assoc, append-nil, arith,
  le→leb,
}
use models_utils.Expr.Codes.{ok, ◌>>=◌, max_depth}
use models_utils.Expr.Ensures.{Ensures-out_of_fuel}
use models_utils.Expr.Lexer.{plus, minus, left_paren, right_paren, Token, op}
use models_utils.Expr.Parser.{
  BinOp, add, sub, mul, div, rem, Tree, int, name, neg, bin, sum_op, product_op, parse_expr,
  term_loop, parse_unary, parse_tokens, parse_fuel,
}
use models_utils.Expr.Fuel.{Yields, Yields-agrees, expr-Grows}
use models_utils.Expr.Totality.{parse_expr-restores_depth}
use models_utils.Expr.Printer.{
  sum, product, factor, level, right_level, symbol, print, nesting, AtSum, AtProduct, AtFactor,
}
use models_utils.Expr.Steps.{
  term_of_unary, expr_of_term, expr_loop_ends, term_loop_ends, expr_round, term_round,
}

-- A place that prints like a tighter one reads like it.
product_of_factor :
    (t : Tree)
    → print product t ≡ print factor t
    → nesting product t ≡ nesting factor t
    → AtFactor t
    → AtProduct t
product_of_factor t same deep at d rest r h q =
    rw same (term_of_unary d d (print factor t ++ rest) rest t r (at d rest (omega arith)) q)

sum_of_product :
    (t : Tree)
    → print sum t ≡ print product t
    → nesting sum t ≡ nesting product t
    → AtProduct t
    → AtSum t
sum_of_product t same deep at d rest r e h q = rw same (
    expr_of_term d d (print product t ++ rest) rest t r
      (at d rest (t, d, rest) (omega arith) (term_loop_ends t d rest e)) q)

-- A sum in parentheses is an atom.
unary_of_paren :
    (d : ℕ) (ts rest : List Token) (t : Tree)
    → d + 1 ≤ max_depth
    → Yields (λ f. parse_expr f (d + 1) ts) (t, d + 1, op right_paren ∷ rest)
    → Yields (λ f. parse_unary f d (op left_paren ∷ ts)) (t, d, rest)
unfolding parse_expr
unary_of_paren d ts rest t h (f, p) =
    (suc (suc f), rw (le→leb (d + 1) max_depth h, p) (ap (λ e. ok (t, e, rest)) (omega arith)))

paren : (o : BinOp) (a b : Tree) → AtSum (bin o a b) → AtFactor (bin o a b)
unfolding sum_op product_op
paren o a b at d rest h =
    let inside = print sum (bin o a b) in
    let tail_eq = append_assoc inside (op right_paren ∷ []) rest in
    rw tail_eq (
      unary_of_paren d (inside ++ op right_paren ∷ rest) rest (bin o a b) (omega arith) (
        at (d + 1) (op right_paren ∷ rest) (bin o a b, d + 1, op right_paren ∷ rest) refl
          (omega arith) (expr_loop_ends (bin o a b) (d + 1) (op right_paren ∷ rest) refl)))

abbrev AtEach : Tree → Type 0
AtEach t = AtSum t × AtProduct t × AtFactor t

of_factor :
    (t : Tree)
    → print sum t ≡ print factor t
    → print product t ≡ print factor t
    → nesting sum t ≡ nesting factor t
    → nesting product t ≡ nesting factor t
    → AtFactor t
    → AtEach t
of_factor t p q m n at =
    let at_product = product_of_factor t q n at in
    (sum_of_product t (p ∙ sym q) (m ∙ sym n) at_product, at_product, at)

-- A chain of sums, and a chain of products.
of_sum : (o : BinOp) (a b : Tree) → AtSum (bin o a b) → level o ≡ sum → AtEach (bin o a b)
of_sum o a b at e =
    let at_factor = paren o a b at in
    (at, product_of_factor (bin o a b) (rw e) (rw e) at_factor, at_factor)

of_product :
    (o : BinOp) (a b : Tree) → AtProduct (bin o a b) → level o ≡ product → AtEach (bin o a b)
of_product o a b at e =
    let at_sum = sum_of_product (bin o a b) (rw e) (rw e) at in (at_sum, at, paren o a b at_sum)

add_chain : (a b : Tree) → AtSum a → AtProduct b → AtSum (bin add a b)
unfolding parse_expr sum_op product_op
add_chain a b ha hb d rest r e h q =
    rw (append_assoc (print sum a) (op plus ∷ print product b) rest) (
      ha d (op plus ∷ (print product b ++ rest)) r refl (omega arith) (
        expr_round add a b d (print product b ++ rest) rest r (λ f. refl)
          (hb d rest (b, d, rest) (omega arith) (term_loop_ends b d rest e)) q))

sub_chain : (a b : Tree) → AtSum a → AtProduct b → AtSum (bin sub a b)
unfolding parse_expr sum_op product_op
sub_chain a b ha hb d rest r e h q =
    rw (append_assoc (print sum a) (op minus ∷ print product b) rest) (
      ha d (op minus ∷ (print product b ++ rest)) r refl (omega arith) (
        expr_round sub a b d (print product b ++ rest) rest r (λ f. refl)
          (hb d rest (b, d, rest) (omega arith) (term_loop_ends b d rest e)) q))

product_chain :
    (o : BinOp) (a b : Tree)
    → level o ≡ product
    → right_level o ≡ factor
    → ((f d : ℕ) (ts : List Token)
        → term_loop (suc f) a d (op (symbol o) ∷ ts)
          ≡ (parse_unary f d ts >>= λ (v, e, us). term_loop f (bin o a v) e us))
    → AtProduct a
    → AtFactor b
    → AtProduct (bin o a b)
product_chain o a b l m s ha hb d rest r h q =
    rw (l, m, append_assoc (print product a) (op (symbol o) ∷ print factor b) rest)
      (ha d (op (symbol o) ∷ (print factor b ++ rest)) r (ground arith) (
        term_round o a b d (print factor b ++ rest) rest r (λ f. s f d (print factor b ++ rest))
          (hb d rest (ground arith)) q))

at_each : (t : Tree) → AtEach t
unfolding parse_expr product_op
at_each (int n) = of_factor (int n) refl refl refl refl λ d rest h. (2, refl)
at_each (name w) = of_factor (name w) refl refl refl refl λ d rest h. (2, refl)
at_each (neg t) =
    of_factor (neg t) refl refl refl refl
      λ d rest h. let (f, p) = (at_each t).2 d rest h in (suc f, rw p)
at_each (bin add a b) = of_sum add a b (add_chain a b (at_each a).0 (at_each b).1) refl
at_each (bin sub a b) = of_sum sub a b (sub_chain a b (at_each a).0 (at_each b).1) refl
at_each (bin mul a b) =
    of_product mul a b
      (product_chain mul a b refl refl (λ f d ts. refl) (at_each a).1 (at_each b).2) refl
at_each (bin div a b) =
    of_product div a b
      (product_chain div a b refl refl (λ f d ts. refl) (at_each a).1 (at_each b).2) refl
at_each (bin rem a b) =
    of_product rem a b
      (product_chain rem a b refl refl (λ f d ts. refl) (at_each a).1 (at_each b).2) refl

-- A printed expression parses back to its tree, if the parentheses are nested at most 8 deep. The
-- printer writes only the parentheses that precedence and association to the left call for.
pub parse_tokens-print : (t : Tree) → nesting sum t ≤ max_depth → parse_tokens (print sum t) ≡ ok t
unfolding parse_tokens parse_expr sum_op
parse_tokens-print t h =
    let ts = print sum t in
    let runs = (at_each t).0 0 [] (t, 0, []) refl (omega arith) (expr_loop_ends t 0 [] refl) in
    let same =
      Yields-agrees (λ f. parse_expr f 0 ts) (t, 0, []) (parse_fuel ts) (expr-Grows 0 ts)
        (rw append-nil at runs) (Ensures-out_of_fuel (parse_expr-restores_depth 0 ts)) in
    rw same

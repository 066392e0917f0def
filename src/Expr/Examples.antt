-- ===== src/Expr/Examples.antt =====
-- Small expressions and blocks: instances of the theorems on playbook_expr.py, and tests.
use models_utils.Prelude.{
  ◌≤◌, ◌<◌, ◌≡◌, refl, some, List, [], ◌∷◌, text_eq, codes, length, arith, All,
}
use models_utils.Prelude.Int.{ℤ, pos, negsuc, pos_part, neg_part, ◌+ℤ◌, ◌-ℤ◌, ◌*ℤ◌}
use models_utils.Expr.Codes.{ok, range, max_tokens, is_secret_name}
use models_utils.Expr.Lexer.{tokenize}
use models_utils.Expr.Ensures.{Ensures}
use models_utils.Expr.Tokens.{IsToken, tokenize-IsToken}
use models_utils.Expr.Parser.{add, mul, div, rem, Tree, int, name, bin, names, parse, parse_tokens}
use models_utils.Expr.Totality.{Leaves, parse-Ensures}
use models_utils.Expr.Printer.{sum, print}
use models_utils.Expr.RoundTrip.{parse_tokens-print}
use models_utils.Expr.Eval.{magnitude, apply_op, Env, evaluate, null, num, str, coerce_operand}
use models_utils.Expr.Arith.{div-rem_lem}
use models_utils.Expr.Exact.{exact, Agrees, evaluate-Agrees}
use models_utils.Expr.Block.{Entry, Report, Variables, evaluate_all, entries}
use models_utils.Expr.BlockLaws.{IsSound, evaluate_all-IsSound}

-- (path.speed + 5) * path.speed
abbrev tree : Tree
tree = bin mul (bin add (name (codes "path.speed")) (int 5)) (name (codes "path.speed"))

abbrev speed : Env
speed = (codes "path.speed", pos 100) ∷ []

abbrev block : List Entry
block =
    record {
      key = str (codes "double");
      expr = str (codes "path.speed * 2");
      min = num (pos 0);
      max = num (pos 500);
    }
    ∷ record {
      key = str (codes "next");
      expr = str (codes "computed.double + 1");
      min = null;
      max = num (pos 100);
    }
    ∷ []

abbrev variables : Variables
variables = (codes "path.speed", str (codes "100")) ∷ []

parse_tokens-print_example : parse_tokens (print sum tree) ≡ ok tree
parse_tokens-print_example = parse_tokens-print tree (omega arith)

evaluate_all-IsSound_example :
    (r : Report) × (evaluate_all (entries block) variables ≡ ok r) × IsSound block r
evaluate_all-IsSound_example = evaluate_all-IsSound block variables

evaluate-Agrees_example : Agrees (exact tree speed) (evaluate tree speed)
evaluate-Agrees_example = evaluate-Agrees tree speed

div-rem_lem_example :
    (q r : ℤ) × (apply_op div (negsuc 6) (pos 2) ≡ ok q)
    × (apply_op rem (negsuc 6) (pos 2) ≡ ok r)
    × (r ≡ negsuc 6 -ℤ pos 2 *ℤ q)
    × (magnitude q ≤ magnitude (negsuc 6))
    × (magnitude r < magnitude (pos 2))
    × (pos_part r ≤ pos_part (negsuc 6))
    × (neg_part r ≤ neg_part (negsuc 6))
div-rem_lem_example = div-rem_lem (negsuc 6) (pos 2) (omega arith) (omega arith)

parse-Ensures_example : Ensures (Leaves IsToken) (parse (codes "path.speed * 2"))
parse-Ensures_example = parse-Ensures (codes "path.speed * 2")

tokenize-IsToken_example :
    Ensures (λ ts. All IsToken ts × (length ts ≤ max_tokens)) (tokenize (codes "path.speed * 2"))
tokenize-IsToken_example = tokenize-IsToken (codes "path.speed * 2")

-- The second value is out of its bounds, and its error is reported.
two_entries :
    evaluate_all (entries block) variables
    ≡ ok (record {
      values = (codes "computed.double", pos 200) ∷ [];
      missing = [];
      errors = (some (codes "next"), range) ∷ [];
      declared = codes "computed.next" ∷ codes "computed.double" ∷ [];
    })
unfolding evaluate_all parse names is_secret_name coerce_operand evaluate ◌*ℤ◌ ◌+ℤ◌
two_entries = refl

product_value : evaluate tree speed ≡ ok (pos 10500)
unfolding evaluate ◌+ℤ◌ ◌*ℤ◌
product_value = refl

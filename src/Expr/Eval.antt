-- ===== src/Expr/Eval.antt =====
-- database_utils/utils/playbook_expr.py: `_bounded`, `_trunc_div`, `_evaluate`, `coerce_operand`.
use models_utils.Prelude.{
  ℕ, ◌+◌, ◌/◌, Bool, true, false, ◌&&◌, Option, none, some, List, [], ◌∷◌, leb, nat_beq, Text,
  text_eq, lookup, length, all, if◌then◌else◌,
}
use models_utils.Prelude.Int.{ℤ, pos, negsuc, pos_part, neg_part, sub_ℕ, ◌+ℤ◌, ◌-ℤ◌, ◌*ℤ◌}
use models_utils.Expr.Codes.{
  Result, ok, err, key_error, overflow, div_zero, type_error, secret, ◌>>=◌, int_limit,
  is_secret_name,
}
use models_utils.Expr.Lexer.{is_digit, int_of}
use models_utils.Expr.Parser.{BinOp, add, sub, mul, div, rem, Tree, int, name, neg, bin}

-- |x|
abbrev pub magnitude : ℤ → ℕ
magnitude x = pos_part x + neg_part x

unfoldable pub bounded : ℤ → Result ℤ
bounded x = if leb (magnitude x) int_limit then ok x else err overflow

abbrev pub is_negative : ℤ → Bool
is_negative (pos n) = false
is_negative (negsuc n) = true

-- `-q if negative else q` for a natural `q`
abbrev pub with_sign : Bool → ℕ → ℤ
with_sign negative q = if negative then sub_ℕ 0 q else pos q

-- `(a < 0) != (b < 0)`
abbrev pub differ : Bool → Bool → Bool
differ true false = true
differ false true = true
differ _ _ = false

unfoldable pub trunc_div : ℤ → ℤ → Result ℤ
trunc_div a b =
    if nat_beq (magnitude b) 0
    then err div_zero
    else ok (with_sign (differ (is_negative a) (is_negative b)) (magnitude a / magnitude b))

unfoldable pub apply_op : BinOp → ℤ → ℤ → Result ℤ
unfolding bounded trunc_div
apply_op add a b = bounded (a +ℤ b)
apply_op sub a b = bounded (a -ℤ b)
apply_op mul a b = bounded (a *ℤ b)
apply_op div a b = trunc_div a b >>= bounded
apply_op rem a b = trunc_div a b >>= λ q. bounded (a -ℤ b *ℤ q)

abbrev pub Env : Type 0
Env = List (Text × ℤ)

abbrev pub found : Option ℤ → Result ℤ
found none = key_error
found (some x) = ok x

-- `env[name]`: a missing key is a KeyError, which the program does not catch.
unfoldable pub read_env : Env → Text → Result ℤ
read_env env w = found (lookup env w)

unfoldable pub evaluate : Tree → Env → Result ℤ
unfolding read_env bounded apply_op
evaluate (int n) env = ok (pos n)
evaluate (name w) env = read_env env w
evaluate (neg t) env = evaluate t env >>= λ x. bounded (pos 0 -ℤ x)
evaluate (bin o a b) env = do x ← evaluate a env; y ← evaluate b env; apply_op o x y

-- A JSON value of a variable or of an entry's field; `other` stands for a float, a list or a dict.
pub data Value : Type 0 where
  null other : Value
  bool : Bool → Value
  num : ℤ → Value
  str : Text → Value

-- `_OPERAND_STR.fullmatch`: -?[0-9]{1,9}
abbrev pub is_number : Text → Bool
is_number s = all is_digit s && (leb 1 (length s) && leb (length s) 9)

unfoldable pub operand_of_text : Text → Result ℤ
unfolding int_of
operand_of_text [] = err type_error
operand_of_text (c ∷ s) =
    if nat_beq c b'-'
    then (if is_number s then ok (sub_ℕ 0 (int_of 0 s)) else err type_error)
    else if is_number (c ∷ s)
    then ok (pos (int_of 0 (c ∷ s)))
    else err type_error

unfoldable pub coerce_value : Value → Result ℤ
unfolding bounded operand_of_text
coerce_value (num x) = bounded x
coerce_value (str s) = operand_of_text s
coerce_value _ = err type_error

unfoldable pub coerce_operand : Text → Value → Result ℤ
unfolding is_secret_name coerce_value
coerce_operand w v = if is_secret_name w then err secret else coerce_value v

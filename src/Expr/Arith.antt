-- ===== src/Expr/Arith.antt =====
-- The laws of `_bounded`, `_trunc_div` and `_evaluate` of playbook_expr.py.
use native.Mathlib.Nat.{div-add-mod, mod-lt}
use models_utils.Prelude.{
  suc, ◌/◌, ◌%◌, ◌≤◌, ◌<◌, ◌≡◌, ◌≢◌, refl, true, false, some, [], ◌∷◌, arith, le→leb, leb, leb→le,
  nat_beq, Text, text_eq, lookup, length, All, All-split, all,
}
use models_utils.Prelude.Int.{ℤ, pos, negsuc, pos_part, neg_part, ◌+ℤ◌, ◌-ℤ◌, ◌*ℤ◌}
use models_utils.Expr.Codes.{ok, int_limit, is_secret_name}
use models_utils.Expr.Ensures.{Ensures, returned, raised, Ensures-if, Ensures-bind, Ensures-weaken}
use models_utils.Expr.Tokens.{IsToken, int_of-lt}
use models_utils.Expr.Totality.{Leaves}
use models_utils.Expr.Parser.{
  BinOp, add, sub, mul, div, rem, Tree, int, name, neg, bin, occurrences,
}
use models_utils.Expr.Lexer.{is_digit, int_of}
use models_utils.Expr.Eval.{
  coerce_operand, coerce_value, operand_of_text, Value, num, str, is_number, magnitude, bounded,
  trunc_div, apply_op, Env, evaluate, with_sign, differ, is_negative,
}

abbrev pub IsBounded : ℤ → Type 0
IsBounded x = magnitude x ≤ int_limit

bounded-Ensures : (x : ℤ) → Ensures IsBounded (bounded x)
unfolding bounded
bounded-Ensures x =
    Ensures-if (leb (magnitude x) int_limit) (λ h. returned (leb→le (magnitude x) int_limit h))
      λ _. raised

trunc_div-Ensures : (a b : ℤ) → Ensures (λ _. Unit {0}) (trunc_div a b)
unfolding trunc_div
trunc_div-Ensures a b = Ensures-if (nat_beq (magnitude b) 0) (λ _. raised) λ _. returned tt

apply_op-Ensures : (o : BinOp) (a b : ℤ) → Ensures IsBounded (apply_op o a b)
unfolding apply_op
apply_op-Ensures add a b = bounded-Ensures (a +ℤ b)
apply_op-Ensures sub a b = bounded-Ensures (a -ℤ b)
apply_op-Ensures mul a b = bounded-Ensures (a *ℤ b)
apply_op-Ensures div a b = Ensures-bind (trunc_div-Ensures a b) λ q _. bounded-Ensures q
apply_op-Ensures rem a b = Ensures-bind (trunc_div-Ensures a b) λ q _. bounded-Ensures (a -ℤ b *ℤ q)

-- The environment has a bounded value for the name.
abbrev pub Defines : Env → Text → Type 0
Defines env w = (x : ℤ) × (lookup env w ≡ some x) × IsBounded x

pub evaluate-Ensures :
    (t : Tree) (env : Env)
    → Leaves IsToken t
    → All (Defines env) (occurrences t)
    → Ensures IsBounded (evaluate t env)
unfolding evaluate
evaluate-Ensures (int n) env l h = returned (omega arith)
evaluate-Ensures (name w) env l ((x, e, b), _) = rw e (returned b)
evaluate-Ensures (neg t) env l h =
    Ensures-bind (evaluate-Ensures t env l h) λ x _. bounded-Ensures (pos 0 -ℤ x)
evaluate-Ensures (bin o a b) env l h =
    let (ha, hb) = All-split (Defines env) (occurrences a) (occurrences b) h in
    Ensures-bind (evaluate-Ensures a env l.0 ha)
      λ x _. Ensures-bind (evaluate-Ensures b env l.1 hb) λ y _. apply_op-Ensures o x y

sign_cases :
    (a b : ℤ)
    → magnitude b ≢ 0
    → let q = with_sign (differ (is_negative a) (is_negative b)) (magnitude a / magnitude b) in
      let r = a -ℤ b *ℤ q in
      (magnitude q ≤ magnitude a)
      × (magnitude r ≡ magnitude a % magnitude b)
      × (pos_part r ≤ pos_part a)
      × (neg_part r ≤ neg_part a)
unfolding ◌-ℤ◌ ◌*ℤ◌
sign_cases (pos m) (pos n) h = grind (arith, div-add-mod m n)
sign_cases (pos m) (negsuc n) h = grind (arith, div-add-mod m (suc n))
sign_cases (negsuc m) (pos n) h = grind (arith, div-add-mod (suc m) n)
sign_cases (negsuc m) (negsuc n) h = grind (arith, div-add-mod (suc m) (suc n))

bounded_lem : (x : ℤ) → IsBounded x → bounded x ≡ ok x
unfolding bounded
bounded_lem x h = rw (le→leb (magnitude x) int_limit h)

-- On bounded operands with a divisor other than 0, "/" and "%" never overflow: the quotient is no
-- larger than the dividend, and the remainder is a - b * quotient, smaller than the divisor, and
-- has the sign of the dividend.
pub div-rem_lem :
    (a b : ℤ)
    → IsBounded a
    → magnitude b ≢ 0
    → (q r : ℤ) × (apply_op div a b ≡ ok q)
      × (apply_op rem a b ≡ ok r)
      × (r ≡ a -ℤ b *ℤ q)
      × (magnitude q ≤ magnitude a)
      × (magnitude r < magnitude b)
      × (pos_part r ≤ pos_part a)
      × (neg_part r ≤ neg_part a)
unfolding apply_op
div-rem_lem a b k h =
    let q = with_sign (differ (is_negative a) (is_negative b)) (magnitude a / magnitude b) in
    let (small, size, up, down) = sign_cases a b h in
    let runs : trunc_div a b ≡ ok q = ground arith in
    (
      q,
      a -ℤ b *ℤ q,
      rw runs (bounded_lem q (omega arith)),
      rw runs (bounded_lem (a -ℤ b *ℤ q) (omega arith)),
      refl,
      small,
      rw size (mod-lt (magnitude a) (omega arith)),
      up,
      down,
    )

-- nine digits at most
number_bounded : (s : Text) → is_number s ≡ true → int_of 0 s ≤ int_limit
number_bounded s h =
    let few : length s ≤ 9 = ground arith in
    let digits : all is_digit s ≡ true = ground arith in omega (arith, int_of-lt 9 0 s few digits)

operand_of_text-Ensures : (s : Text) → Ensures IsBounded (operand_of_text s)
unfolding operand_of_text
operand_of_text-Ensures [] = raised
operand_of_text-Ensures (c ∷ s) =
    Ensures-if (nat_beq c b'-')
      (λ _.
        Ensures-if (is_number s) (λ h. returned (ground (arith, number_bounded s h))) (λ _. raised))
      (λ _.
        Ensures-if (is_number (c ∷ s)) (λ h. returned (omega (arith, number_bounded (c ∷ s) h)))
          (λ _. raised))

coerce_value-Ensures : (v : Value) → Ensures IsBounded (coerce_value v)
unfolding coerce_value
coerce_value-Ensures (num x) = bounded-Ensures x
coerce_value-Ensures (str s) = operand_of_text-Ensures s
coerce_value-Ensures _ = raised

-- An operand is within the limit, and its name is not a secret one.
pub coerce_operand-Ensures :
    (w : Text) (v : Value)
    → Ensures (λ x. IsBounded x × (is_secret_name w ≡ false)) (coerce_operand w v)
unfolding coerce_operand
coerce_operand-Ensures w v =
    Ensures-if (is_secret_name w) (λ _. raised)
      λ plain. Ensures-weaken (λ x b. (b, plain)) (coerce_value-Ensures v)

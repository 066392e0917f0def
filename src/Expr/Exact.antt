-- ===== src/Expr/Exact.antt =====
-- `_evaluate` of playbook_expr.py against arithmetic without bounds.
use models_utils.Prelude.{
  ◌/◌, ◌≡◌, refl, subst, Option, none, some, leb, nat_beq, text_eq, lookup, Bool-cases, inl, inr,
  if◌then◌else◌,
}
use models_utils.Prelude.Int.{ℤ, pos, ◌+ℤ◌, ◌-ℤ◌, ◌*ℤ◌}
use models_utils.Expr.Codes.{Result, ok, err, key_error, overflow, div_zero, ◌>>=◌, int_limit}
use models_utils.Expr.Parser.{BinOp, add, sub, mul, div, rem, Tree, int, name, neg, bin}
use models_utils.Expr.Eval.{
  magnitude, bounded, trunc_div, apply_op, Env, evaluate, with_sign, differ, is_negative, found,
}

abbrev and_then {ℓ κ} : {A : Type ℓ} {B : Type κ} → Option A → (A → Option B) → Option B
and_then none f = none
and_then (some a) f = f a

-- The quotient rounded toward 0; there is none by 0.
abbrev pub quotient : ℤ → ℤ → Option ℤ
quotient a b =
    if nat_beq (magnitude b) 0
    then none
    else some (with_sign (differ (is_negative a) (is_negative b)) (magnitude a / magnitude b))

abbrev pub exact_op : BinOp → ℤ → ℤ → Option ℤ
exact_op add a b = some (a +ℤ b)
exact_op sub a b = some (a -ℤ b)
exact_op mul a b = some (a *ℤ b)
exact_op div a b = quotient a b
exact_op rem a b = and_then (quotient a b) λ q. some (a -ℤ b *ℤ q)

-- The value over all integers: none at a division by 0 or a name without a value.
abbrev pub exact : Tree → Env → Option ℤ
exact (int n) env = some (pos n)
exact (name w) env = lookup env w
exact (neg t) env = and_then (exact t env) λ x. some (pos 0 -ℤ x)
exact (bin o a b) env = and_then (exact a env) λ x. and_then (exact b env) λ y. exact_op o x y

-- A result is the exact value, or an overflow; the other errors tell that there is no value.
pub data Agrees : Option ℤ → Result ℤ → Type 0 where
  same : (v : ℤ) → Agrees (some v) (ok v)
  too_large : (o : Option ℤ) → Agrees o (err overflow)
  divided_by_zero : Agrees none (err div_zero)
  no_value : Agrees none key_error

Agrees-bind :
    {o : Option ℤ} {r : Result ℤ} {g : ℤ → Option ℤ} {f : ℤ → Result ℤ}
    → Agrees o r
    → ((x : ℤ) → Agrees (g x) (f x))
    → Agrees (and_then o g) (r >>= f)
Agrees-bind (same v) k = k v
Agrees-bind (too_large o) k = too_large _
Agrees-bind divided_by_zero k = divided_by_zero
Agrees-bind no_value k = no_value

and_then-some : (o : Option ℤ) → and_then o (λ x. some x) ≡ o
and_then-some none = refl
and_then-some (some x) = refl

bounded-Agrees : (x : ℤ) → Agrees (some x) (bounded x)
unfolding bounded
bounded-Agrees x = elim (Bool-cases (leb (magnitude x) int_limit)) [
  | inl e ↦ rw e (same x)
  | inr e ↦ rw e (too_large (some x))
]

trunc_div-Agrees : (a b : ℤ) → Agrees (quotient a b) (trunc_div a b)
unfolding trunc_div
trunc_div-Agrees a b = elim (Bool-cases (nat_beq (magnitude b) 0)) [
  | inl e ↦ rw e divided_by_zero
  | inr e ↦ rw e (same _)
]

apply_op-Agrees : (o : BinOp) (a b : ℤ) → Agrees (exact_op o a b) (apply_op o a b)
unfolding apply_op
apply_op-Agrees add a b = bounded-Agrees (a +ℤ b)
apply_op-Agrees sub a b = bounded-Agrees (a -ℤ b)
apply_op-Agrees mul a b = bounded-Agrees (a *ℤ b)
apply_op-Agrees div a b =
    subst (λ o. Agrees o (trunc_div a b >>= bounded)) (and_then-some (quotient a b))
      (Agrees-bind (trunc_div-Agrees a b) bounded-Agrees)
apply_op-Agrees rem a b = Agrees-bind (trunc_div-Agrees a b) λ q. bounded-Agrees (a -ℤ b *ℤ q)

read-Agrees : (o : Option ℤ) → Agrees o (found o)
read-Agrees none = no_value
read-Agrees (some x) = same x

-- Evaluation returns the value that the expression has over all integers, or raises
-- COMPUTE_OVERFLOW; a division by 0 or a name without a value is told only where there is no value.
pub evaluate-Agrees : (t : Tree) (env : Env) → Agrees (exact t env) (evaluate t env)
unfolding evaluate
evaluate-Agrees (int n) env = same (pos n)
evaluate-Agrees (name w) env = read-Agrees (lookup env w)
evaluate-Agrees (neg t) env = Agrees-bind (evaluate-Agrees t env) λ x. bounded-Agrees (pos 0 -ℤ x)
evaluate-Agrees (bin o a b) env =
    Agrees-bind (evaluate-Agrees a env)
      λ x. Agrees-bind (evaluate-Agrees b env) λ y. apply_op-Agrees o x y

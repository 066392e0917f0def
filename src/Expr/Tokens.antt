-- ===== src/Expr/Tokens.antt =====
-- The tokens that `_tokenize` of playbook_expr.py lets through, and that it always ends.

use native.Mathlib.Nat.{pow-suc}
use models_utils.Prelude.{
  ℕ, zero, suc, ◌+◌, ◌-◌, ◌*◌, ◌^◌, ◌≤◌, ◌<◌, ◌≡◌, refl, Bool, true, ◌||◌, [], ◌∷◌, arith, leb,
  leb→le, nat_beq, Text, length, all, All,
}
use models_utils.Expr.Codes.{ok, syntax, name_error, limit, max_tokens, max_expr_length}
use models_utils.Expr.Ensures.{
  Ensures, returned, raised, Ensures-weaken, Ensures-if, Ensures-choose, Ensures-require,
  Ensures-bind,
}
use models_utils.Expr.Lexer.{
  Token, op, int, name, is_digit, is_lower, is_word, span, int_of, check_name, split_dots,
  operator?, int_token, name_token, next_token, lex, tokenize,
}

-- What the grammar says of a token: INT has at most nine digits, NAME is one of a namespace.
abbrev pub IsToken : Token → Type 0
IsToken (op o) = Unit
IsToken (int n) = n < 10 ^ 9
IsToken (name w) = check_name (split_dots w) ≡ true

pow_pos : (k : ℕ) → 0 < 10 ^ k
pow_pos zero = omega arith
pow_pos (suc k) = omega (arith, pow-suc 10 k, pow_pos k)

digit_step : (x n d p : ℕ) → x < (n * 10 + d + 1) * p → d ≤ 9 → x < (n + 1) * (p * 10)
digit_step x n d p h e = grind arith

pub int_of-lt :
    (k n : ℕ) (s : Text) → length s ≤ k → all is_digit s ≡ true → int_of n s < (n + 1) * 10 ^ k
unfolding int_of
int_of-lt k n [] h d = grind (arith, pow_pos k)
int_of-lt zero n (c ∷ s) h d = absurd (omega arith)
int_of-lt (suc k) n (c ∷ s) h d = rw (pow-suc 10 k) (
    digit_step _ n (c - 48) (10 ^ k)
      (int_of-lt k (n * 10 + (c - 48)) s (omega arith) (ground arith)) (ground arith))

span_lem :
    (p : ℕ → Bool) (s : Text)
    → (all p (span p s).0 ≡ true) × (length (span p s).0 + length (span p s).1 ≡ length s)
unfolding span
span_lem p [] = (refl, refl)
span_lem p (c ∷ s) = ground (arith, span_lem p s)

span-shorter : (p : ℕ → Bool) (c : ℕ) (s : Text) → p c ≡ true → length (span p (c ∷ s)).1 ≤ length s
unfolding span
span-shorter p c s h = rw h (omega (arith, span_lem p s))

-- A token, and no more than the text behind its first character.
abbrev Reads : ℕ → Token × Text → Type 0
Reads n (t, rest) = IsToken t × (length rest ≤ n)

int_token-Ensures :
    (n : ℕ) (r : Text × Text)
    → all is_digit r.0 ≡ true
    → length r.1 ≤ n
    → Ensures (Reads n) (int_token r)
unfolding int_token
int_token-Ensures n (digits, rest) d h =
    Ensures-require (leb (length digits) 9) syntax (ok (int (int_of 0 digits), rest))
      λ e. returned (omega (arith, int_of-lt 9 0 digits (leb→le _ 9 e) d), h)

name_token-Ensures : (n : ℕ) (r : Text × Text) → length r.1 ≤ n → Ensures (Reads n) (name_token r)
unfolding name_token
name_token-Ensures n (word, rest) h =
    Ensures-require (check_name (split_dots word)) name_error (ok (name word, rest))
      λ e. returned (e, h)

is_word_of_is_lower : (c : ℕ) → is_lower c ≡ true → is_word c ≡ true
is_word_of_is_lower c h = ground arith

next_token-Ensures : (c : ℕ) (s : Text) → Ensures (Reads (length s)) (next_token c s)
unfolding next_token
next_token-Ensures c s =
    Ensures-choose (operator? c)
      (λ _.
        Ensures-if (is_digit c)
          (λ h.
            int_token-Ensures (length s) (span is_digit (c ∷ s)) (span_lem is_digit (c ∷ s)).0
              (span-shorter is_digit c s h))
          (λ _.
            Ensures-if (is_lower c)
              (λ h.
                name_token-Ensures (length s) (span is_word (c ∷ s))
                  (span-shorter is_word c s (is_word_of_is_lower c h)))
              (λ _. raised)))
      (λ o _. returned (tt, omega arith))

lex-Ensures :
    (f n : ℕ) (s : Text)
    → length s < f
    → n ≤ max_tokens
    → Ensures (λ ts. All IsToken ts × (n + length ts ≤ max_tokens)) (lex f n s)
unfolding lex
lex-Ensures zero n s h m = absurd (omega arith)
lex-Ensures (suc f) n [] h m = returned (tt, omega arith)
lex-Ensures (suc f) n (c ∷ s) h m =
    Ensures-if (nat_beq c b' ' || nat_beq c 9) (λ _. lex-Ensures f n s (omega arith) m)
      λ _. Ensures-bind (next_token-Ensures c s) λ (t, rest) (good, shorter).
        Ensures-require (leb (n + 1) max_tokens) limit _ λ e.
          Ensures-bind (lex-Ensures f (n + 1) rest (omega arith) (leb→le (n + 1) max_tokens e))
            λ ts (all_good, few). returned ((good, all_good), omega arith)

-- The tokenizer returns or raises, and what it returns is at most 64 tokens, each an operator, an
-- integer below 10^9 or a name of the grammar in one of the namespaces.
pub tokenize-IsToken :
    (expr : Text) → Ensures (λ ts. All IsToken ts × (length ts ≤ max_tokens)) (tokenize expr)
unfolding tokenize
tokenize-IsToken expr =
    Ensures-require (leb (length expr) max_expr_length) limit (lex (length expr + 1) 0 expr) λ _.
      Ensures-weaken (λ ts (p, q). (p, omega arith))
        (lex-Ensures (length expr + 1) 0 expr (omega arith) (omega arith))

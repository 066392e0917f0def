-- ===== src/Expr/Lexer.antt =====
-- database_utils/utils/playbook_expr.py: `_tokenize`.
use models_utils.Prelude.{
  ℕ, zero, suc, ◌+◌, ◌-◌, ◌*◌, Bool, true, false, ◌&&◌, ◌||◌, Option, none, some, List, [], ◌∷◌,
  leb, nat_beq, Text, ◌==◌, text_eq, contains, length, all, if◌then◌else◌,
}
use models_utils.Expr.Codes.{
  Result, ok, err, out_of_fuel, syntax, limit, name_error, ◌>>=◌, ◌>>◌, require, choose,
  max_expr_length, max_tokens, namespaces, computed_namespace,
}

-- The characters of `_OPERATORS`.
pub data Op : Type 0 where
  plus minus times slash percent left_paren right_paren : Op

-- The pairs ("op", ch), ("int", n) and ("name", word).
pub data Token : Type 0 where
  op : Op → Token
  int : ℕ → Token
  name : Text → Token

unfoldable pub operator? : ℕ → Option Op
operator? c =
    if nat_beq c b'+'
    then some plus
    else if nat_beq c b'-'
    then some minus
    else if nat_beq c b'*'
    then some times
    else if nat_beq c b'/'
    then some slash
    else if nat_beq c b'%'
    then some percent
    else if nat_beq c b'('
    then some left_paren
    else if nat_beq c b')'
    then some right_paren
    else none

abbrev pub is_digit : ℕ → Bool
is_digit c = leb b'0' c && leb c b'9'

abbrev pub is_lower : ℕ → Bool
is_lower c = leb b'a' c && leb c b'z'

abbrev pub is_word : ℕ → Bool
is_word c = nat_beq c b'_' || nat_beq c b'.' || is_lower c || is_digit c

-- The scan `while j < n and p(expr[j]): j += 1`: what is passed over, and the rest.
unfoldable pub span : (ℕ → Bool) → Text → Text × Text
span p [] = ([], [])
span p (c ∷ s) = let (xs, r) = span p s in if p c then (c ∷ xs, r) else ([], c ∷ s)

-- `int(s)` on ASCII digits
unfoldable pub int_of : ℕ → Text → ℕ
int_of n [] = n
int_of n (c ∷ s) = int_of (n * 10 + (c - b'0')) s

-- a character in front of the first part
abbrev pub push : ℕ → List Text → List Text
push c [] = (c ∷ []) ∷ []
push c (p ∷ ps) = (c ∷ p) ∷ ps

-- `word.split(".")`
unfoldable pub split_dots : Text → List Text
split_dots [] = [] ∷ []
split_dots (c ∷ s) = let parts = split_dots s in if nat_beq c b'.' then [] ∷ parts else push c parts

-- `_SEGMENT`: [a-z][a-z0-9_]*
abbrev pub is_segment : Text → Bool
is_segment [] = false
is_segment (c ∷ s) = is_lower c && all (λ d. is_lower d || is_digit d || nat_beq d b'_') s

-- The tests on a word: `_NAME` matches it, its first group is a namespace, and a computed name
-- has one segment behind the namespace.
unfoldable pub check_name : List Text → Bool
check_name (ns ∷ seg ∷ more) =
    all is_segment (ns ∷ seg ∷ more)
    && contains namespaces ns
    && (if ns == computed_namespace then nat_beq (length more) 0 else true)
check_name _ = false

unfoldable pub int_token : Text × Text → Result (Token × Text)
unfolding int_of
int_token (digits, rest) = do
  require (leb (length digits) 9) syntax
  ok (int (int_of 0 digits), rest)

unfoldable pub name_token : Text × Text → Result (Token × Text)
unfolding check_name split_dots
name_token (word, rest) = do require (check_name (split_dots word)) name_error; ok (name word, rest)

-- One token at a character that is no blank, and the text behind it.
unfoldable pub next_token : ℕ → Text → Result (Token × Text)
unfolding operator? int_token name_token span
next_token c s =
    choose (operator? c)
      (if is_digit c
        then int_token (span is_digit (c ∷ s))
        else if is_lower c
        then name_token (span is_word (c ∷ s))
        else err syntax)
      λ o. ok (op o, s)

-- The loop over the text; `n` tokens are before it.
unfoldable pub lex : ℕ → ℕ → Text → Result (List Token)
lex zero n s = out_of_fuel
lex (suc f) n [] = ok []
lex (suc f) n (c ∷ s) =
    let blank = lex f n s in
    let more = do
      (t, rest) ← next_token c s
      require (leb (n + 1) max_tokens) limit
      ts ← lex f (n + 1) rest
      ok (t ∷ ts)
    in if nat_beq c b' ' || nat_beq c 9 then blank else more

unfoldable pub tokenize : Text → Result (List Token)
unfolding lex next_token
tokenize expr = do require (leb (length expr) max_expr_length) limit; lex (length expr + 1) 0 expr

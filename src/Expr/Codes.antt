-- ===== src/Expr/Codes.antt =====
-- database_utils/utils/playbook_expr.py: error codes, limits and `is_secret_name`.
-- `ExprError.detail` is prose and is not modelled (callers branch on `code`).
use models_utils.Prelude.{
  ℕ, ◌+◌, ◌-◌, ◌^◌, Bool, true, false, ◌&&◌, ◌||◌, Option, none, some, List, [], ◌∷◌, ◌++◌, leb,
  nat_beq, Text, codes, any, if◌then◌else◌,
}

pub data Code : Type 0 where
  syntax limit name_error secret type_error overflow div_zero range : Code

-- `err` is a raised ExprError, `key_error` a KeyError, which no caller catches. `out_of_fuel` has no
-- counterpart in the program.
pub data Result {ℓ} (A : Type ℓ) : Type ℓ where
  ok : A → Result A
  err : Code → Result A
  key_error out_of_fuel : Result A

infixl 5 ◌>>=◌ ◌>>◌
abbrev pub ◌>>=◌ {ℓ κ} : {A : Type ℓ} {B : Type κ} → Result A → (A → Result B) → Result B
ok a >>= f = f a
err e >>= f = err e
key_error >>= f = key_error
out_of_fuel >>= f = out_of_fuel

abbrev pub ◌>>◌ {ℓ} : {B : Type ℓ} → Result (Unit {0}) → Result B → Result B
m >> k = m >>= λ _. k

-- `if not test: raise ExprError(code, ...)`
abbrev pub require : Bool → Code → Result (Unit {0})
require true e = ok tt
require false e = err e

-- A branch on whether there is a value.
abbrev pub choose {ℓ κ} :
    {A : Type ℓ} {B : Type κ} → Option A → Result B → (A → Result B) → Result B
choose none x f = x
choose (some a) x f = f a

abbrev pub max_expr_length : ℕ
max_expr_length = 256

abbrev pub max_tokens : ℕ
max_tokens = 64

abbrev pub max_depth : ℕ
max_depth = 8

abbrev pub int_limit : ℕ
int_limit = 2 ^ 31 - 1

abbrev pub namespaces : List Text
namespaces =
    codes "device"
    ∷ codes "cpe"
    ∷ codes "old_cpe"
    ∷ codes "path"
    ∷ codes "service_plan"
    ∷ codes "client"
    ∷ codes "service"
    ∷ codes "computed"
    ∷ []

abbrev pub computed_namespace : Text
computed_namespace = codes "computed"

abbrev pub secret_hints : List Text
secret_hints =
    codes "password" ∷ codes "secret" ∷ codes "token" ∷ codes "key" ∷ codes "credential" ∷ []

-- `str.lower()`, as far as ASCII letters go: beside A-Z only the Kelvin sign and the dotted
-- capital I have an ASCII letter in their lower case.
pub lower_char : ℕ → Text
lower_char c =
    if leb b'A' c && leb c b'Z'
    then (c + 32) ∷ []
    else if nat_beq c 0x212a
    then b'k' ∷ []
    else if nat_beq c 0x130
    then b'i' ∷ 0x307 ∷ []
    else c ∷ []

unfoldable pub lower : Text → Text
unfolding lower_char
lower [] = []
lower (c ∷ s) = lower_char c ++ lower s

abbrev pub is_prefix : Text → Text → Bool
is_prefix [] s = true
is_prefix (a ∷ p) [] = false
is_prefix (a ∷ p) (b ∷ s) = nat_beq a b && is_prefix p s

-- `p in s` on strings
abbrev pub is_infix : Text → Text → Bool
is_infix p [] = is_prefix p []
is_infix p (c ∷ s) = is_prefix p (c ∷ s) || is_infix p s

unfoldable pub is_secret_name : Text → Bool
unfolding lower
is_secret_name name = any (λ hint. is_infix hint (lower name)) secret_hints

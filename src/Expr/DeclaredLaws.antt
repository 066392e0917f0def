-- ===== src/Expr/DeclaredLaws.antt =====
-- `evaluate_all` of playbook_expr.py: where nothing fails and nothing is missing, every declared key
-- has a value.
use models_utils.Prelude.{
  ◌≡◌, refl, sym, ◌∙◌, subst, true, Option, none, some, List, [], ◌∷◌, ◌++◌, Text, ◌==◌, text_eq,
  text_beq_iff, All, append-ne-nil, contains, lookup, assign, lookup-assign, is_some, arith,
  Bool-cases, inl, inr,
}
use models_utils.Prelude.Int.{ℤ}
use models_utils.Expr.Codes.{Code, Result, ok, err, key_error, out_of_fuel, ◌>>=◌}
use models_utils.Expr.Eval.{Value, null, other, bool, num, str}
use models_utils.Expr.Block.{
  Entry, Report, Variables, computed_name, attempt, settle, step, run_entries, declare,
  evaluate_all, entries, empty_report,
}
use models_utils.Expr.DeclaredScan.{Gives, HasBut, TryKeeps, attempt-Keeps}

abbrev pub IsClean : Report → Type 0
IsClean r = (r.errors ≡ []) × (r.missing ≡ [])

abbrev IsFilled : Report → Type 0
IsFilled r = (w : Text) → contains r.declared w ≡ true → is_some (lookup r.values w) ≡ true

abbrev Names : List Text → Entry → Type 0
Names declared e = (key : Text) → e.key ≡ str key → contains declared (computed_name key) ≡ true

abbrev Grows : List Text → List Text → Type 0
Grows ds ds' = (w : Text) → contains ds w ≡ true → contains ds' w ≡ true

abbrev StepKeeps : Report → Entry → Report → Type 0
StepKeeps r e r' =
    IsClean r'
    → IsClean r × (IsFilled r → IsFilled r') × Names r'.declared e × Grows r.declared r'.declared

filled_but :
    (r : Report) (key : Text)
    → IsFilled r
    → HasBut (computed_name key) r.values (computed_name key ∷ r.declared)
filled_but r key h w c n = h w (rw n at c)

assign-IsFilled :
    (r : Report) (key : Text) (x : ℤ) (w : Text)
    → IsFilled r
    → contains (computed_name key ∷ r.declared) w ≡ true
    → is_some (lookup (assign r.values (computed_name key) x) w) ≡ true
assign-IsFilled r key x w h c =
    rw (lookup-assign r.values (computed_name key) w x)
      (elim (Bool-cases (computed_name key == w)) [
        | inl e ↦ rw e refl
        | inr e ↦ rw e (
            h w (
              grind
                (arith, text_beq_iff w (computed_name key), text_beq_iff (computed_name key) w)))
      ])

str_inj : (s t : Text) → str s ≡ str t → s ≡ t
str_inj s t h = cc

own-Names :
    (r : Report) (k : Text) (e : Entry) → e.key ≡ str k → Names (computed_name k ∷ r.declared) e
own-Names r k e h key same = rw ((text_beq_iff key k).1 (str_inj key k (sym same ∙ h))) refl

settle-Keeps :
    (r : Report) (key : Text) (e : Entry) (p : List Text × Result (Option ℤ))
    → e.key ≡ str key
    → TryKeeps (declare key r) (computed_name key) p
    → Gives (StepKeeps r e) (settle (declare key r) key p)
unfolding settle
settle-Keeps r key e (missing, ok none) k h = λ clean.
    let (a, here) = h clean.1 in
    (
      (clean.0, a),
      (λ filled. absurd (here (filled_but r key filled))),
      own-Names r key e k,
      (λ w c. ground (arith, c)),
    )
settle-Keeps r key e (missing, ok (some x)) k h = λ clean.
    let (a, here) = h clean.1 in
    (
      (clean.0, a),
      (λ filled w c. assign-IsFilled r key x w filled c),
      own-Names r key e k,
      (λ w c. ground (arith, c)),
    )
settle-Keeps r key e (missing, err c) k h =
    λ clean. absurd (append-ne-nil r.errors (some key, c) clean.0)
settle-Keeps r key e (missing, key_error) k h = tt
settle-Keeps r key e (missing, out_of_fuel) k h = tt

malformed-Keeps :
    (key : Option Text) (r r' : Report) (e : Entry)
    → r'.errors ≡ r.errors ++ (key, Code.syntax) ∷ []
    → StepKeeps r e r'
malformed-Keeps key r r' e same clean =
    absurd (append-ne-nil r.errors (key, Code.syntax) (sym same ∙ clean.0))

-- The expression of an entry whose key is a text.
keyed-Keeps :
    (vars : Variables) (key : Text) (x : Value) (e : Entry) (r : Report)
    → e.key ≡ str key
    → Gives (StepKeeps r e) (step vars (str key) x e r)
unfolding step
keyed-Keeps vars key (str expr) e r k =
    settle-Keeps r key e (attempt (declare key r) key expr e vars) k
      (attempt-Keeps (declare key r) key expr e vars)
keyed-Keeps vars key null e r k = malformed-Keeps (some key) r _ e refl
keyed-Keeps vars key other e r k = malformed-Keeps (some key) r _ e refl
keyed-Keeps vars key (bool b) e r k = malformed-Keeps (some key) r _ e refl
keyed-Keeps vars key (num n) e r k = malformed-Keeps (some key) r _ e refl

step-Keeps :
    (vars : Variables) (k x : Value) (e : Entry) (r : Report)
    → e.key ≡ k
    → Gives (StepKeeps r e) (step vars k x e r)
unfolding step
step-Keeps vars (str key) x e r k = keyed-Keeps vars key x e r k
step-Keeps vars null x e r k = malformed-Keeps none r _ e refl
step-Keeps vars other x e r k = malformed-Keeps none r _ e refl
step-Keeps vars (bool b) x e r k = malformed-Keeps none r _ e refl
step-Keeps vars (num n) x e r k = malformed-Keeps none r _ e refl

-- What a clean report at the end says of the one before some entries.
abbrev RunKeeps : Report → List Entry → Report → Type 0
RunKeeps r es r' =
    IsClean r'
    → IsClean r
      × (IsFilled r → IsFilled r')
      × All (Names r'.declared) es
      × Grows r.declared r'.declared

after_step :
    (r r1 : Report) (e : Entry) (es : List Entry) (m : Result Report)
    → StepKeeps r e r1
    → Gives (RunKeeps r1 es) m
    → Gives (RunKeeps r (e ∷ es)) m
after_step r r1 e es (ok r') h rest = λ clean.
    let (c, filled, named, grown) = rest clean in
    let (c', filled', named', grown') = h c in
    (
      c',
      (λ f. filled (filled' f)),
      ((λ key k. grown (computed_name key) (named' key k)), named),
      (λ w d. grown w (grown' w d)),
    )
after_step r r1 e es (err c) h rest = tt
after_step r r1 e es key_error h rest = tt
after_step r r1 e es out_of_fuel h rest = tt

bind-Keeps :
    (r : Report) (e : Entry) (es : List Entry) (m : Result Report) (k : Report → Result Report)
    → Gives (StepKeeps r e) m
    → ((r1 : Report) → Gives (RunKeeps r1 es) (k r1))
    → Gives (RunKeeps r (e ∷ es)) (m >>= k)
bind-Keeps r e es (ok r1) k h rest = after_step r r1 e es (k r1) h (rest r1)
bind-Keeps r e es (err c) k h rest = tt
bind-Keeps r e es key_error k h rest = tt
bind-Keeps r e es out_of_fuel k h rest = tt

run_entries-Keeps :
    (vars : Variables) (es : List Entry) (r : Report)
    → Gives (RunKeeps r es) (run_entries vars es r)
unfolding run_entries
run_entries-Keeps vars [] r = λ clean. (clean, (λ f. f), tt, λ w d. d)
run_entries-Keeps vars (e ∷ es) r =
    bind-Keeps r e es (step vars e.key e.expr e r) (run_entries vars es)
      (step-Keeps vars e.key e.expr e r refl) (λ r1. run_entries-Keeps vars es r1)

-- The key of an entry has a value in the report.
abbrev pub HasValue : Report → Entry → Type 0
HasValue r e = (key : Text) → e.key ≡ str key → is_some (lookup r.values (computed_name key)) ≡ true

named-HasValue :
    (r : Report) (es : List Entry) → IsFilled r → All (Names r.declared) es → All (HasValue r) es
named-HasValue r [] f n = tt
named-HasValue r (e ∷ es) f (n, ns) =
    ((λ key k. f (computed_name key) (n key k)), named-HasValue r es f ns)

-- A report with no error and no missing name has a value for each key of the block.
pub evaluate_all-HasValue :
    (es : List Entry) (vars : Variables) (r : Report)
    → evaluate_all (entries es) vars ≡ ok r
    → IsClean r
    → All (HasValue r) es
unfolding evaluate_all
evaluate_all-HasValue es vars r e clean =
    let (c, filled, named, grown) =
      subst (Gives (RunKeeps empty_report es)) e (run_entries-Keeps vars es empty_report) clean in
    named-HasValue r es (filled (λ w d. cc)) named

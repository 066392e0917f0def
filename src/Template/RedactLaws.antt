-- ===== src/Template/RedactLaws.antt =====
-- The redaction of playbook_render.py leaves no secret.
use models_utils.Prelude.{
  ◌≡◌, refl, sym, subst, ◌∙◌, ap, ℕ, zero, suc, ◌-◌, Bool, true, false, not, ◌||◌, List, [], ◌∷◌,
  ◌++◌, nat_beq, nat_eq, Text, ◌==◌, text_eq, text_beq_iff, length, contains, arith, Bool-cases,
  &&-eq-true, inl, inr,
}
use models_utils.Expr.Codes.{is_prefix, is_infix}
use models_utils.Template.Filters.{replace_all}
use models_utils.Template.Redaction.{stars, redact_one, redact_text}

-- A secret that is not empty and has no star.
abbrev pub IsStarless : Text → Type 0
IsStarless [] = ⊥
IsStarless (c ∷ s) = contains (c ∷ s) b'*' ≡ false

no_clash : true ≡ false → ⊥
no_clash h = cc

starless_tail : (a : ℕ) (q : Text) → contains (a ∷ q) b'*' ≡ false → contains q b'*' ≡ false
starless_tail a q n = ground (arith, n)

replace_hit :
    (p : Text) (c : ℕ) (s : Text)
    → is_prefix p (c ∷ s) ≡ true
    → replace_all 0 p stars (c ∷ s) ≡ stars ++ replace_all (length p - 1) p stars s
unfolding replace_all
replace_hit p c s e = ground (arith, e)

replace_miss :
    (p : Text) (c : ℕ) (s : Text)
    → is_prefix p (c ∷ s) ≡ false
    → replace_all 0 p stars (c ∷ s) ≡ c ∷ replace_all 0 p stars s
unfolding replace_all
replace_miss p c s e = ground (arith, e)

star_first :
    (a : ℕ) (q r : Text) → contains (a ∷ q) b'*' ≡ false → is_prefix (a ∷ q) (stars ++ r) ≡ false
star_first a q r n = ground (arith, n)

-- A prefix of the result with no star is one of the text.
prefix-replace_all :
    (q p s : Text)
    → contains q b'*' ≡ false
    → is_prefix q (replace_all 0 p stars s) ≡ true
    → is_prefix q s ≡ true
unfolding replace_all
prefix-replace_all [] p s n h = refl
prefix-replace_all (a ∷ q) p [] n h = h
prefix-replace_all (a ∷ q) p (c ∷ s) n h = elim (Bool-cases (is_prefix p (c ∷ s))) [
  | inl e ↦
      absurd
        (no_clash (sym h ∙ (ap (is_prefix (a ∷ q)) (replace_hit p c s e) ∙ star_first a q _ n)))
  | inr e ↦
      let (same, more) =
        &&-eq-true (nat_beq a c) (is_prefix q (replace_all 0 p stars s))
          (sym (ap (is_prefix (a ∷ q)) (replace_miss p c s e)) ∙ h) in
      rw (same, prefix-replace_all q p s (starless_tail a q n) more) refl
]

infix-stars :
    (a : ℕ) (q r : Text)
    → contains (a ∷ q) b'*' ≡ false
    → is_infix (a ∷ q) (stars ++ r) ≡ is_infix (a ∷ q) r
infix-stars a q r n = ground (arith, n)

or_right : (a b : Bool) → b ≡ true → (a || b) ≡ true
or_right a b h = ground (arith, h)

or_false : (a b : Bool) → (a || b) ≡ false → (a ≡ false) × (b ≡ false)
or_false a b h = ground (arith, h)

both_false : (a b : Bool) → a ≡ false → b ≡ false → (a || b) ≡ false
both_false a b h k = ground (arith, h, k)

-- What is no prefix of a text is none of the result where nothing is replaced in front.
missed :
    (q p : Text) (c : ℕ) (s : Text)
    → contains q b'*' ≡ false
    → is_prefix p (c ∷ s) ≡ false
    → is_prefix q (c ∷ s) ≡ false
    → is_prefix q (c ∷ replace_all 0 p stars s) ≡ false
missed q p c s n e h = elim (Bool-cases (is_prefix q (c ∷ replace_all 0 p stars s))) [
  | inr k ↦ k
  | inl k ↦ absurd (
      no_clash
        (sym (prefix-replace_all q p (c ∷ s) n (ap (is_prefix q) (replace_miss p c s e) ∙ k)) ∙ h))
]

-- What does not occur in a text does not occur behind a replacement.
infix-replace_all :
    (a : ℕ) (q p : Text) (k : ℕ) (s : Text)
    → contains (a ∷ q) b'*' ≡ false
    → is_infix (a ∷ q) s ≡ false
    → is_infix (a ∷ q) (replace_all k p stars s) ≡ false
unfolding replace_all
infix-replace_all a q p k [] n h = h
infix-replace_all a q p (suc k) (c ∷ s) n h =
    infix-replace_all a q p k s n (or_false (is_prefix (a ∷ q) (c ∷ s)) (is_infix (a ∷ q) s) h).1
infix-replace_all a q p zero (c ∷ s) n h =
    let (front, later) = or_false (is_prefix (a ∷ q) (c ∷ s)) (is_infix (a ∷ q) s) h in
    elim (Bool-cases (is_prefix p (c ∷ s))) [
      | inl e ↦
          ap (is_infix (a ∷ q)) (replace_hit p c s e)
          ∙ (infix-stars a q _ n ∙ infix-replace_all a q p (length p - 1) s n later)
      | inr e ↦
          ap (is_infix (a ∷ q)) (replace_miss p c s e)
          ∙ both_false _ _ (missed (a ∷ q) p c s n e front) (infix-replace_all a q p 0 s n later)
    ]

-- The text that is replaced does not occur.
infix-replaced :
    (a : ℕ) (p : Text) (k : ℕ) (s : Text)
    → contains (a ∷ p) b'*' ≡ false
    → is_infix (a ∷ p) (replace_all k (a ∷ p) stars s) ≡ false
unfolding replace_all
infix-replaced a p k [] n = refl
infix-replaced a p (suc k) (c ∷ s) n = infix-replaced a p k s n
infix-replaced a p zero (c ∷ s) n = elim (Bool-cases (is_prefix (a ∷ p) (c ∷ s))) [
  | inl e ↦
      ap (is_infix (a ∷ p)) (replace_hit (a ∷ p) c s e)
      ∙ (infix-stars a p _ n ∙ infix-replaced a p _ s n)
  | inr e ↦
      ap (is_infix (a ∷ p)) (replace_miss (a ∷ p) c s e)
      ∙ both_false _ _ (missed (a ∷ p) (a ∷ p) c s n e e) (infix-replaced a p 0 s n)
]

abbrev pub IsAbsent : Text → Text → Type 0
IsAbsent q s = is_infix q s ≡ false

-- A text with no star that is not empty.
abbrev pub is_starless : Text → Bool
is_starless [] = false
is_starless (c ∷ s) = not (contains (c ∷ s) b'*')

of_not : (b : Bool) → not b ≡ true → b ≡ false
of_not b h = ground (arith, h)

redact_one-IsAbsent :
    (q v s : Text) → is_starless q ≡ true → IsAbsent q s → IsAbsent q (redact_one v s)
redact_one-IsAbsent [] v s n h = cc
redact_one-IsAbsent (a ∷ q) v s n h = elim (Bool-cases (is_infix v s)) [
  | inl e ↦ rw e (infix-replace_all a q v 0 s (of_not (contains (a ∷ q) b'*') n) h)
  | inr e ↦ rw e h
]

redact_one-gone : (q s : Text) → is_starless q ≡ true → IsAbsent q (redact_one q s)
redact_one-gone [] s n = cc
redact_one-gone (a ∷ q) s n = elim (Bool-cases (is_infix (a ∷ q) s)) [
  | inl e ↦ rw e (infix-replaced a q 0 s (of_not (contains (a ∷ q) b'*') n))
  | inr e ↦ rw e e
]

redact_text-IsAbsent :
    (q : Text) (vs : List Text) (s : Text)
    → is_starless q ≡ true
    → IsAbsent q s
    → IsAbsent q (redact_text vs s)
unfolding redact_text
redact_text-IsAbsent q [] s n h = h
redact_text-IsAbsent q (v ∷ vs) s n h =
    redact_text-IsAbsent q vs (redact_one v s) n (redact_one-IsAbsent q v s n h)

pub redact_text-gone :
    (q : Text) (vs : List Text) (s : Text)
    → is_starless q ≡ true
    → contains vs q ≡ true
    → IsAbsent q (redact_text vs s)
unfolding redact_text
redact_text-gone q [] s n h = cc
redact_text-gone q (v ∷ vs) s n h = elim (Bool-cases (q == v)) [
  | inl e ↦
      redact_text-IsAbsent q vs (redact_one v s) n
        (subst (λ w. IsAbsent q (redact_one w s)) ((text_beq_iff q v).0 e) (redact_one-gone q s n))
  | inr e ↦ redact_text-gone q vs (redact_one v s) n (rw e at h)
]

-- ===== src/Template/SecretLaws.antt =====
-- `redact_secrets` of playbook_render.py: no secret is left in a value.
use models_utils.Prelude.{
  ◌≡◌, refl, sym, ◌∙◌, ap, nat_eq, Bool, true, false, not, ◌||◌, List, [], ◌∷◌, Text, ◌==◌, text_eq,
  text_beq_iff, contains, keep_if, arith, Bool-cases, inl, inr, if◌then◌else◌,
}
use models_utils.Template.Redaction.{
  Json, Items, Fields, text, array, object, other, no_items, item, no_fields, field, special,
  escape, insert_by_length, variants, is_secret, redact, redact_items, redact_fields,
  redact_secrets,
}
use models_utils.Template.RedactLaws.{IsAbsent, is_starless, redact_text-gone}

-- A text is in no string of a value, at any depth; the keys of its dicts stay as they are.
abbrev mutual
  pub IsFree : Text → Json → Type 0
  IsFree q (text s) = IsAbsent q s
  IsFree q (array xs) = AreFree q xs
  IsFree q (object fs) = FieldsFree q fs
  IsFree q other = Unit

  pub AreFree : Text → Items → Type 0
  AreFree q no_items = Unit
  AreFree q (item x xs) = IsFree q x × AreFree q xs

  pub FieldsFree : Text → Fields → Type 0
  FieldsFree q no_fields = Unit
  FieldsFree q (field k x fs) = IsFree q x × FieldsFree q fs

module _ (q : Text) (vs : List Text) (n : is_starless q ≡ true) (h : contains vs q ≡ true) where
  mutual
    unfolding redact

    redact-IsFree : (x : Json) → IsFree q (redact vs x)
    redact-IsFree (text s) = redact_text-gone q vs s n h
    redact-IsFree (array xs) = redact_items-AreFree xs
    redact-IsFree (object fs) = redact_fields-FieldsFree fs
    redact-IsFree other = tt

    redact_items-AreFree : (xs : Items) → AreFree q (redact_items vs xs)
    redact_items-AreFree no_items = tt
    redact_items-AreFree (item x xs) = (redact-IsFree x, redact_items-AreFree xs)

    redact_fields-FieldsFree : (fs : Fields) → FieldsFree q (redact_fields vs fs)
    redact_fields-FieldsFree no_fields = tt
    redact_fields-FieldsFree (field k x fs) = (redact-IsFree x, redact_fields-FieldsFree fs)

contains-insert :
    (v : Text) (ws : List Text) (q : Text)
    → contains (insert_by_length v ws) q ≡ (q == v || contains ws q)
contains-insert v [] q = refl
contains-insert v (w ∷ ws) q = ground (arith, contains-insert v ws q)

no_clash : true ≡ false → ⊥
no_clash h = cc

or_right : (a b : Bool) → b ≡ true → (a || b) ≡ true
or_right a b h = ground (arith, h)

contains-variants :
    (ss : List Text) (q : Text) → contains ss q ≡ true → contains (variants ss) q ≡ true
unfolding variants
contains-variants [] q h = cc
contains-variants (s ∷ ss) q h =
    contains-insert s (insert_by_length (escape s) (variants ss)) q ∙ (elim (Bool-cases (q == s)) [
      | inl e ↦ rw e refl
      | inr e ↦ or_right _ _ (
          contains-insert (escape s) (variants ss) q
          ∙ or_right _ _ (contains-variants ss q (rw e at h)))
    ])

contains-escape :
    (ss : List Text) (q : Text) → contains ss q ≡ true → contains (variants ss) (escape q) ≡ true
unfolding variants
contains-escape [] q h = cc
contains-escape (s ∷ ss) q h =
    contains-insert s (insert_by_length (escape s) (variants ss)) (escape q)
    ∙ or_right _ _ (
        contains-insert (escape s) (variants ss) (escape q) ∙ (elim (Bool-cases (q == s)) [
          | inl e ↦
              rw ((text_beq_iff (escape q) (escape s)).1 (ap escape ((text_beq_iff q s).0 e))) refl
          | inr e ↦ or_right _ _ (contains-escape ss q (rw e at h))
        ]))

contains_kept :
    (s q : Text) (ss : List Text) (b : Bool)
    → is_secret s ≡ b
    → is_secret q ≡ true
    → (q == s || contains ss q) ≡ true
    → ((q == s) ≡ false → contains (keep_if is_secret ss) q ≡ true)
    → contains (if b then s ∷ keep_if is_secret ss else keep_if is_secret ss) q ≡ true
contains_kept s q ss true e n h rest = elim (Bool-cases (q == s)) [
  | inl k ↦ rw k refl
  | inr k ↦ or_right _ _ (rest k)
]
contains_kept s q ss false e n h rest = elim (Bool-cases (q == s)) [
  | inl k ↦ absurd (no_clash (sym n ∙ (ap is_secret ((text_beq_iff q s).0 k) ∙ e)))
  | inr k ↦ rest k
]

contains-keep_if :
    (ss : List Text) (q : Text)
    → is_secret q ≡ true
    → contains ss q ≡ true
    → contains (keep_if is_secret ss) q ≡ true
contains-keep_if [] q n h = cc
contains-keep_if (s ∷ ss) q n h =
    contains_kept s q ss (is_secret s) refl n h λ k. contains-keep_if ss q n (rw k at h)

escape-contains : (q : Text) → contains q b'*' ≡ false → contains (escape q) b'*' ≡ false
unfolding escape
escape-contains [] n = refl
escape-contains (c ∷ q) n = ground (arith, n, escape-contains q)

of_not : (b : Bool) → not b ≡ true → b ≡ false
of_not b h = ground (arith, h)

to_not : (b : Bool) → b ≡ false → not b ≡ true
to_not b h = rw h refl

escape-starless : (q : Text) → is_starless q ≡ true → is_starless (escape q) ≡ true
unfolding escape
escape-starless [] n = cc
escape-starless (c ∷ q) n =
    let h = escape-contains (c ∷ q) (of_not (contains (c ∷ q) b'*') n) in
    elim (Bool-cases (contains special c)) [
      | inl e ↦ rw e (to_not _ (rw e at h))
      | inr e ↦ rw e (to_not _ (rw e at h))
    ]

-- No secret is left in a redacted value, whatever the other secrets are: neither it nor its escaped
-- form is in a string of the value, at any depth, if it is not blank and has no star. A secret with
-- a star may be in the stars that replace others; the keys of dicts are not redacted.
pub redact_secrets-IsFree :
    (value : Json) (secrets : List Text) (q : Text)
    → contains secrets q ≡ true
    → is_secret q ≡ true
    → is_starless q ≡ true
    → IsFree q (redact_secrets value secrets) × IsFree (escape q) (redact_secrets value secrets)
unfolding redact_secrets
redact_secrets-IsFree value secrets q h s n =
    let kept = keep_if is_secret secrets in
    let mine = contains-keep_if secrets q s h in
    (
      redact-IsFree q (variants kept) n (contains-variants kept q mine) value,
      redact-IsFree (escape q) (variants kept) (escape-starless q n) (contains-escape kept q mine)
          value,
    )

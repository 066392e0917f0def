-- ===== src/Workflow/KahnStart.antt =====
-- The first queue of workflow_engine.py, and the loop from it.
use models_utils.Prelude.{
  ℕ, zero, suc, ◌≤◌, ◌≡◌, refl, sym, ◌∙◌, ap, Bool, true, Option, List, [], ◌∷◌, nat_beq,
  nat_beq_iff, nat_eq, contains, length, All, keep_if, arith, Bool-cases, inl, inr,
}
use models_utils.Prelude.Int.{ℤ, pos, negsuc}
use models_utils.Workflow.Kahn.{
  Edge, Degrees, degree_of, is_zero, zeros, count_edges, kahn, is_known,
}
use models_utils.Workflow.KahnInvariant.{occurs, pending, first_degrees}
use models_utils.Workflow.KahnLoop.{unseen, Ends, drain-Ends}

occurs-keep_if : (p : ℕ → Bool) (xs : List ℕ) (v : ℕ) → occurs v (keep_if p xs) ≤ occurs v xs
occurs-keep_if p [] v = omega arith
occurs-keep_if p (x ∷ xs) v = ground (arith, occurs-keep_if p xs v)

is_zero_pos : (x : ℤ) → is_zero x ≡ true → x ≡ pos 0
is_zero_pos (pos zero) h = refl
is_zero_pos (pos (suc n)) h = cc
is_zero_pos (negsuc n) h = cc

kept_zero :
    (d : Degrees) (p : ℕ → ℕ) (xs : List ℕ) (v : ℕ)
    → ((w : ℕ) → degree_of d w ≡ pos (p w))
    → 1 ≤ occurs v (keep_if (λ i. is_zero (degree_of d i)) xs)
    → p v ≡ 0
kept_zero d p [] v h k = omega arith
kept_zero d p (x ∷ xs) v h k = elim (Bool-cases (is_zero (degree_of d x))) [
  | inr b ↦ kept_zero d p xs v h (rw b at k)
  | inl b ↦ elim (Bool-cases (nat_beq x v)) [
    | inr e ↦ let rest = rw b at k in kept_zero d p xs v h (ground arith)
    | inl e ↦
        let same : pos (p v) ≡ pos 0 =
          sym (h v)
          ∙ ap (degree_of d) (sym ((nat_beq_iff x v).0 e))
          ∙ is_zero_pos (degree_of d x) b in
        cc
  ]
]

kept_found :
    (d : Degrees) (p : ℕ → ℕ) (xs : List ℕ) (v : ℕ)
    → ((w : ℕ) → degree_of d w ≡ pos (p w))
    → contains xs v ≡ true
    → p v ≡ 0
    → 1 ≤ occurs v (keep_if (λ i. is_zero (degree_of d i)) xs)
kept_found d p [] v h k z = cc
kept_found d p (x ∷ xs) v h k z = elim (Bool-cases (nat_beq x v)) [
  | inl e ↦
      let b : is_zero (degree_of d x) ≡ true =
        ap (λ i. is_zero (degree_of d i)) ((nat_beq_iff x v).0 e) ∙ ap is_zero (h v ∙ ap pos z) in
      rw b (ground arith)
  | inr e ↦
      let rest = kept_found d p xs v h (ground arith) z in
      elim (Bool-cases (is_zero (degree_of d x))) [
        | inl b ↦ rw b (ground arith)
        | inr b ↦ rw b rest
      ]
]

keep_if-known :
    (p : ℕ → Bool) (ids xs : List ℕ)
    → ((v : ℕ) → contains xs v ≡ true → contains ids v ≡ true)
    → All (λ v. contains ids v ≡ true) (keep_if p xs)
keep_if-known p ids [] h = tt
keep_if-known p ids (x ∷ xs) h =
    let rest = keep_if-known p ids xs (λ v k. h v (ground arith)) in
    let here = h x (ground arith) in
    elim (Bool-cases (p x)) [ inl b ↦ rw b (here, rest) | inr b ↦ rw b rest ]

unseen_none : (ids : List ℕ) → unseen ids [] ≡ length ids
unseen_none [] = refl
unseen_none (i ∷ is) = ground (arith, unseen_none is)

-- The loop ends on every graph whose ids are distinct and whose edges lead to an id.
pub kahn-Ends {ℓ} :
    {C : Type ℓ} (act : ℕ → C → Option C) (ids : List ℕ) (es : List Edge) (c : C)
    → ((v : ℕ) → occurs v ids ≤ 1)
    → All (λ (e : Edge). contains ids e.to_step ≡ true) es
    → Ends ids es (kahn act ids es c)
unfolding kahn
kahn-Ends act ids es c distinct to =
    let d = count_edges es (zeros ids) in
    let size = unseen_none ids in
    drain-Ends act ids es (length ids) (keep_if (λ i. is_zero (degree_of d i)) ids) d [] c distinct
      to (omega arith)
      (record {
        counts = first_degrees ids es;
        once = λ v.
            let a = distinct v in
            let b = occurs-keep_if (λ i. is_zero (degree_of d i)) ids v in omega arith;
        free = λ v k. kept_zero d (pending es []) ids v (first_degrees ids es) (omega arith);
        found = λ v k z.
            let a = kept_found d (pending es []) ids v (first_degrees ids es) k z in omega arith;
        known = keep_if-known (λ i. is_zero (degree_of d i)) ids ids (λ v k. k);
        kept = tt;
        ready = tt;
        size = omega arith;
      })

pub known_to :
    (ids : List ℕ) (es : List Edge)
    → All (λ (e : Edge). contains ids e.to_step ≡ true) (keep_if (is_known ids) es)
known_to ids [] = tt
known_to ids (e ∷ es) = elim (Bool-cases (is_known ids e)) [
  | inl b ↦ rw b (ground arith, known_to ids es)
  | inr b ↦ rw b (known_to ids es)
]

pub All-seen : (ids done : List ℕ) → unseen ids done ≡ 0 → All (λ i. contains done i ≡ true) ids
All-seen [] done h = tt
All-seen (i ∷ is) done h = elim (Bool-cases (contains done i)) [
  | inl b ↦ (b, All-seen is done (rw b at h))
  | inr b ↦ let k = rw b at h in absurd (omega arith)
]

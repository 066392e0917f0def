-- ===== src/Workflow/KahnLoop.antt =====
-- The `while queue` loop of workflow_engine.py ends, with each step behind its predecessors.
use models_utils.Prelude.{
  ℕ, zero, suc, ◌+◌, ◌≤◌, ◌≡◌, refl, sym, ◌∙◌, ap, true, false, not, Option, List, [], ◌∷◌, nat_beq,
  nat_beq_iff, nat_eq, contains, length, All, keep_if, arith, Bool-cases, Option-cases, inl, inr,
}
use models_utils.Prelude.Int.{pos}
use models_utils.Workflow.Kahn.{
  Edge, Degrees, degree_of, neighbours, reduce, Drained, drained, stopped, out_of_fuel, drain,
}
use models_utils.Workflow.KahnInvariant.{occurs, pending, pending-neighbours, Reducing}
use models_utils.Workflow.KahnReduce.{reduce-Reducing}

-- The processed steps, the last one first: each once, and each behind all its predecessors.
abbrev pub Ready : List Edge → List ℕ → Type 0
Ready es [] = Unit
Ready es (v ∷ done) =
    (contains done v ≡ false)
    × ((u : ℕ) → contains (neighbours es u) v ≡ true → contains done u ≡ true)
    × Ready es done

abbrev pub unseen : List ℕ → List ℕ → ℕ
unseen ids done = length (keep_if (λ i. not (contains done i)) ids)

pub record Looping (ids : List ℕ) (es : List Edge) (q : List ℕ) (d : Degrees) (done : List ℕ)
    : Type 0 where
  pub counts : (v : ℕ) → degree_of d v ≡ pos (pending es done v)
  pub once : (v : ℕ) → occurs v q + occurs v done ≤ 1
  pub free : (v : ℕ) → 1 ≤ occurs v q + occurs v done → pending es done v ≡ 0
  pub found :
      (v : ℕ) → contains ids v ≡ true → pending es done v ≡ 0 → 1 ≤ occurs v q + occurs v done
  pub known : All (λ v. contains ids v ≡ true) q
  pub kept : All (λ v. contains ids v ≡ true) done
  pub ready : Ready es done
  pub size : unseen ids done + length done ≡ length ids

contains_none : (v : ℕ) (xs : List ℕ) → occurs v xs ≡ 0 → contains xs v ≡ false
contains_none v [] h = refl
contains_none v (x ∷ xs) h = ground (arith, contains_none v xs)

pending_none :
    (es : List Edge) (done : List ℕ) (u v : ℕ)
    → pending es done v ≡ 0
    → contains (neighbours es u) v ≡ true
    → contains done u ≡ true
unfolding neighbours
pending_none [] done u v h k = cc
pending_none (e ∷ es) done u v h k = elim (Bool-cases (nat_beq e.from_step u)) [
  | inr b ↦ pending_none es done u v (omega arith) (rw b at k)
  | inl b ↦
      let from : contains done e.from_step ≡ contains done u =
        ap (contains done) ((nat_beq_iff e.from_step u).0 b) in
      let later = pending_none es done u v (omega arith) in let here = rw b at k in ground arith
]

unseen_same :
    (ids done : List ℕ) (v : ℕ) → occurs v ids ≡ 0 → unseen ids (v ∷ done) ≡ unseen ids done
unseen_same [] done v h = refl
unseen_same (i ∷ is) done v h = ground (arith, unseen_same is done v)

unseen_drop :
    (ids done : List ℕ) (v : ℕ)
    → occurs v ids ≤ 1
    → contains ids v ≡ true
    → contains done v ≡ false
    → suc (unseen ids (v ∷ done)) ≡ unseen ids done
unseen_drop [] done v o h k = cc
unseen_drop (i ∷ is) done v o h k = elim (Bool-cases (nat_beq v i)) [
  | inl b ↦
      let same : contains done i ≡ false = ap (contains done) (sym ((nat_beq_iff v i).0 b)) ∙ k in
      ground (arith, unseen_same is done v)
  | inr b ↦ ground (arith, unseen_drop is done v)
]

All-neighbours :
    (ids : List ℕ) (es : List Edge) (u : ℕ)
    → All (λ (e : Edge). contains ids e.to_step ≡ true) es
    → All (λ v. contains ids v ≡ true) (neighbours es u)
unfolding neighbours
All-neighbours ids [] u h = tt
All-neighbours ids (e ∷ es) u h = elim (Bool-cases (nat_beq e.from_step u)) [
  | inl b ↦ rw b (h.0, All-neighbours ids es u h.1)
  | inr b ↦ rw b (All-neighbours ids es u h.1)
]

reducing :
    (ids : List ℕ) (es : List Edge) (v : ℕ) (q : List ℕ) (d : Degrees) (done : List ℕ)
    → All (λ (e : Edge). contains ids e.to_step ≡ true) es
    → contains done v ≡ false
    → Looping ids es (v ∷ q) d done
    → Reducing ids (pending es (v ∷ done)) (λ w. occurs w (v ∷ done)) (neighbours es v) d q
reducing ids es v q d done to fresh h = record {
  counts = λ w. h.counts w ∙ ap pos (pending-neighbours es done v w fresh);
  once = λ w. let a = h.once w in omega arith;
  free = λ w k. sym (pending-neighbours es done v w fresh) ∙ h.free w (omega arith);
  found = λ w k z. let a = h.found w k (pending-neighbours es done v w fresh ∙ z) in omega arith;
  known_next = All-neighbours ids es v to;
  known = h.known.1;
}

pop :
    (ids : List ℕ) (es : List Edge) (v : ℕ) (q : List ℕ) (d : Degrees) (done : List ℕ)
    → occurs v ids ≤ 1
    → All (λ (e : Edge). contains ids e.to_step ≡ true) es
    → contains done v ≡ false
    → Looping ids es (v ∷ q) d done
    → let (d', q') = reduce (neighbours es v) d q in Looping ids es q' d' (v ∷ done)
pop ids es v q d done distinct to fresh h =
    let r =
      reduce-Reducing ids (pending es (v ∷ done)) (λ w. occurs w (v ∷ done)) (neighbours es v) d q
        (reducing ids es v q d done to fresh h) in
    let free : pending es done v ≡ 0 = h.free v (ground arith) in
    let less = unseen_drop ids done v distinct h.known.0 fresh in
    let size = h.size in
    record {
      counts = λ w. r.counts w ∙ ap pos (omega arith);
      once = r.once;
      free = λ w k. let a = r.free w k in omega arith;
      found = λ w k z. let a = r.found w k in omega arith;
      known = r.known;
      kept = (h.known.0, h.kept);
      ready = (fresh, λ u k. pending_none es done u v free k, h.ready);
      size = omega arith;
    }

-- No id whose predecessors have all been processed is left out.
abbrev pub Reaches : List ℕ → List Edge → List ℕ → Type 0
Reaches ids es done =
    (v : ℕ) → contains ids v ≡ true → pending es done v ≡ 0 → contains done v ≡ true

contains_some : (v : ℕ) (xs : List ℕ) → 1 ≤ occurs v xs → contains xs v ≡ true
contains_some v [] h = absurd (omega arith)
contains_some v (x ∷ xs) h = ground (arith, contains_some v xs)

-- The end of a loop that had enough fuel.
abbrev pub Ends {ℓ} : {C : Type ℓ} → List ℕ → List Edge → Drained C → Type 0
Ends ids es (drained done c) =
    Ready es done
    × (unseen ids done + length done ≡ length ids)
    × Reaches ids es done
    × All (λ v. contains ids v ≡ true) done
Ends ids es (stopped done) = Ready es done
Ends ids es out_of_fuel = ⊥

fresh_head :
    (ids : List ℕ) (es : List Edge) (v : ℕ) (q : List ℕ) (d : Degrees) (done : List ℕ)
    → Looping ids es (v ∷ q) d done
    → contains done v ≡ false
fresh_head ids es v q d done h = contains_none v done (let a = h.once v in ground arith)

pub drain-Ends {ℓ} :
    {C : Type ℓ} (act : ℕ → C → Option C) (ids : List ℕ) (es : List Edge) (f : ℕ) (q : List ℕ)
    (d : Degrees) (done : List ℕ) (c : C)
    → ((v : ℕ) → occurs v ids ≤ 1)
    → All (λ (e : Edge). contains ids e.to_step ≡ true) es
    → unseen ids done ≤ f
    → Looping ids es q d done
    → Ends ids es (drain act es f q d done c)
unfolding drain
drain-Ends act ids es zero [] d done c distinct to l h =
    (h.ready, h.size, λ v k z. contains_some v done (let a = h.found v k z in omega arith), h.kept)
drain-Ends act ids es (suc f) [] d done c distinct to l h =
    (h.ready, h.size, λ v k z. contains_some v done (let a = h.found v k z in omega arith), h.kept)
drain-Ends act ids es zero (v ∷ q) d done c distinct to l h =
    let less = unseen_drop ids done v (distinct v) h.known.0 (fresh_head ids es v q d done h) in
    omega arith
drain-Ends act ids es (suc f) (v ∷ q) d done c distinct to l h =
    let fresh = fresh_head ids es v q d done h in
    let next = pop ids es v q d done (distinct v) to fresh h in
    let less = unseen_drop ids done v (distinct v) h.known.0 fresh in
    elim (Option-cases (act v c)) [
      | inl e ↦ rw e next.ready
      | inr (c', e) ↦ rw e (
          drain-Ends act ids es f (reduce (neighbours es v) d q).1 (reduce (neighbours es v) d q).0
            (v ∷ done) c' distinct to (omega arith) next)
    ]

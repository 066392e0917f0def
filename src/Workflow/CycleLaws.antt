-- ===== src/Workflow/CycleLaws.antt =====
-- The answer "cycle" of `detect_cycle` in workflow_engine.py.
use models_utils.Prelude.{
  ℕ, zero, suc, ◌≡◌, refl, ◌∙◌, ap, true, some, List, [], ◌∷◌, ltb, nat_beq, nat_beq_iff, nat_eq,
  contains, length, All, all, arith, Bool-cases, inl, inr,
}
use models_utils.Workflow.Kahn.{
  Edge, Drained, drained, stopped, out_of_fuel, kahn, neighbours, range_from, no_cycle, cycle,
  index_error, visited_all, detect_cycle,
}
use models_utils.Workflow.KahnInvariant.{pending}
use models_utils.Workflow.KahnLoop.{Ready, Ends, Reaches, unseen}
use models_utils.Workflow.KahnStart.{kahn-Ends}
use models_utils.Workflow.KahnLaws.{HasOrder, occurs-range, range_to, length-range}

contains_at :
    (xs done : List ℕ) (v : ℕ)
    → All (λ i. contains done i ≡ true) xs
    → contains xs v ≡ true
    → contains done v ≡ true
contains_at [] done v h k = cc
contains_at (x ∷ xs) done v h k = elim (Bool-cases (nat_beq v x)) [
  | inl b ↦ ap (contains done) ((nat_beq_iff v x).0 b) ∙ h.0
  | inr b ↦ contains_at xs done v h.1 (ground arith)
]

contains_later :
    (e : Edge) (es : List Edge) (u v : ℕ)
    → contains (neighbours es u) v ≡ true
    → contains (neighbours (e ∷ es) u) v ≡ true
unfolding neighbours
contains_later e es u v k = elim (Bool-cases (nat_beq e.from_step u)) [
  | inl b ↦ rw b (ground arith)
  | inr b ↦ rw b k
]

contains_own :
    (e : Edge) (es : List Edge) (v : ℕ)
    → nat_beq e.to_step v ≡ true
    → contains (neighbours (e ∷ es) e.from_step) v ≡ true
unfolding neighbours
contains_own e es v b =
    let same : nat_beq e.from_step e.from_step ≡ true = ground arith in rw same (ground arith)

pending_zero :
    (es : List Edge) (done : List ℕ) (v : ℕ)
    → ((u : ℕ) → contains (neighbours es u) v ≡ true → contains done u ≡ true)
    → pending es done v ≡ 0
unfolding neighbours
pending_zero [] done v h = refl
pending_zero (e ∷ es) done v h =
    let rest = pending_zero es done v (λ u k. h u (contains_later e es u v k)) in
    elim (Bool-cases (nat_beq e.to_step v)) [
      | inr b ↦ rw b (omega arith)
      | inl b ↦ let from = h e.from_step (contains_own e es v b) in rw (b, from) (omega arith)
    ]

-- A step whose predecessors all come before it in an order is processed with them.
order_done :
    (ids : List ℕ) (es : List Edge) (done order : List ℕ)
    → Reaches ids es done
    → Ready es order
    → All (λ i. contains ids i ≡ true) order
    → All (λ i. contains done i ≡ true) order
order_done ids es done [] reached h k = tt
order_done ids es done (v ∷ order) reached (_, before, h) (k, ks) =
    let rest = order_done ids es done order reached h ks in
    (reached v k (pending_zero es done v (λ u e. contains_at order done u rest (before u e))), rest)

unseen_through :
    (xs order done : List ℕ)
    → All (λ i. contains done i ≡ true) order
    → All (λ i. contains order i ≡ true) xs
    → unseen xs done ≡ 0
unseen_through [] order done h k = refl
unseen_through (x ∷ xs) order done h (k, ks) =
    let here = contains_at order done x h k in
    let rest = unseen_through xs order done h ks in rw here (ground arith)

visited_of_order {ℓ} :
    {C : Type ℓ} (n : ℕ) (es : List Edge) (r : Drained C)
    → length (range_from 0 n) ≡ n
    → Ends (range_from 0 n) es r
    → visited_all n r ≡ some cycle
    → ¬ HasOrder n es
unfolding visited_all
visited_of_order n es (drained done c) m (ready, size, reached, kept) h
      (order, behind, within, covers) =
    let none =
      unseen_through (range_from 0 n) order done
        (order_done (range_from 0 n) es done order reached behind within) covers in
    elim (Bool-cases (nat_beq (length done) n)) [
      | inl b ↦ absurd (no_cycle_no (rw b at h))
      | inr b ↦ ground arith
    ]
  where
    no_cycle_no : some no_cycle ≡ some cycle → ⊥
    no_cycle_no h = cc
visited_of_order n es (stopped done) m e h o = cc
visited_of_order n es out_of_fuel m e h o = e

-- Where `detect_cycle` answers that there is a cycle, the steps cannot be put in an order in which
-- each one stands once, behind all the steps with an edge into it.
pub detect_cycle-no_HasOrder :
    (n : ℕ) (edges : List Edge) → detect_cycle n edges ≡ some cycle → ¬ HasOrder n edges
unfolding detect_cycle
detect_cycle-no_HasOrder zero edges h = cc
detect_cycle-no_HasOrder (suc n) edges h =
    elim (Bool-cases (all (λ (e : Edge). ltb e.to_step (suc n)) edges)) [
      | inr b ↦ absurd (index_no (rw b at h))
      | inl b ↦
          visited_of_order (suc n) edges (kahn (λ v c. some c) (range_from 0 (suc n)) edges tt)
            (length-range 0 (suc n))
            (kahn-Ends (λ v c. some c) (range_from 0 (suc n)) edges tt
              (λ v. (occurs-range v 0 (suc n)).0) (range_to (suc n) edges b))
            (rw b at h)
    ]
  where
    index_no : some index_error ≡ some cycle → ⊥
    index_no h = cc

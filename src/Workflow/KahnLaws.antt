-- ===== src/Workflow/KahnLaws.antt =====
-- What `execute_workflow` and `detect_cycle` of workflow_engine.py promise.
use models_utils.Prelude.{
  ℕ, zero, suc, ◌+◌, ◌≤◌, ◌<◌, ◌≡◌, ◌⊎◌, refl, true, Option, none, some, List, [], ◌∷◌, ltb,
  nat_beq, nat_eq, contains, length, All, all, keep_if, arith, Bool-cases, &&-eq-true, inl, inr,
}
use models_utils.Workflow.Kahn.{
  Edge, Drained, drained, stopped, out_of_fuel, kahn, is_known, failed, Execution, conclude,
  execute_workflow, range_from, no_cycle, cycle, index_error, visited_all, detect_cycle,
}
use models_utils.Workflow.KahnInvariant.{occurs}
use models_utils.Workflow.KahnLoop.{Ready, Ends}
use models_utils.Workflow.KahnStart.{kahn-Ends, known_to, All-seen}

-- An execution with its steps in a good order: FAILED, or with all of them.
abbrev pub Executes : List ℕ → List Edge → Option Execution → Type 0
Executes ids es none = ⊥
Executes ids es (some x) =
    Ready es x.executed × ((x.status ≡ failed) ⊎ All (λ i. contains x.executed i ≡ true) ids)

conclude-Executes {ℓ} :
    {C : Type ℓ} (ids : List ℕ) (es : List Edge) (r : Drained C)
    → Ends ids es r
    → Executes ids es (conclude ids r)
unfolding conclude
conclude-Executes ids es (drained done c) (ready, size, reached, kept) =
    elim (Bool-cases (ltb (length done) (length ids))) [
      | inl b ↦ rw b (ready, inl refl)
      | inr b ↦ rw b (ready, inr (All-seen ids done (ground arith)))
    ]
conclude-Executes ids es (stopped done) ready = (ready, inl refl)
conclude-Executes ids es out_of_fuel h = absurd h

-- For any behaviour of the steps, an execution comes to an end. The executed steps are distinct,
-- and each runs behind all the steps with an edge into it; the execution has run every step, or it
-- is FAILED. The ids of the steps are distinct.
pub execute_workflow-Executes {ℓ} :
    {C : Type ℓ} (act : ℕ → C → Option C) (ids : List ℕ) (edges : List Edge) (c : C)
    → ((v : ℕ) → occurs v ids ≤ 1)
    → Executes ids (keep_if (is_known ids) edges) (execute_workflow act ids edges c)
unfolding execute_workflow
execute_workflow-Executes act ids edges c distinct =
    let es = keep_if (is_known ids) edges in
    conclude-Executes ids es (kahn act ids es c)
      (kahn-Ends act ids es c distinct (known_to ids edges))

pub occurs-range :
    (v k n : ℕ) → (occurs v (range_from k n) ≤ 1) × (v < k → occurs v (range_from k n) ≡ 0)
occurs-range v k zero = (omega arith, λ h. refl)
occurs-range v k (suc n) = ground (arith, occurs-range v (suc k) n)

contains-range : (v k n : ℕ) → k ≤ v → v < k + n → contains (range_from k n) v ≡ true
contains-range v k zero h l = absurd (omega arith)
contains-range v k (suc n) h l = ground (arith, contains-range v (suc k) n)

pub range_to :
    (n : ℕ) (es : List Edge)
    → all (λ (e : Edge). ltb e.to_step n) es ≡ true
    → All (λ (e : Edge). contains (range_from 0 n) e.to_step ≡ true) es
range_to n [] h = tt
range_to n (e ∷ es) h =
    let (a, b) = &&-eq-true (ltb e.to_step n) _ h in
    (contains-range e.to_step 0 n (omega arith) (ground arith), range_to n es b)

-- An order of the steps and of nothing else, the last one first, with each step behind its
-- predecessors.
abbrev pub HasOrder : ℕ → List Edge → Type 0
HasOrder n es =
    (order : List ℕ) × Ready es order
    × All (λ i. contains (range_from 0 n) i ≡ true) order
    × All (λ i. contains order i ≡ true) (range_from 0 n)

order_of_visited {ℓ} :
    {C : Type ℓ} (n : ℕ) (es : List Edge) (r : Drained C)
    → length (range_from 0 n) ≡ n
    → Ends (range_from 0 n) es r
    → visited_all n r ≡ some no_cycle
    → HasOrder n es
unfolding visited_all
order_of_visited n es (drained done c) m (ready, size, reached, kept) h =
    elim (Bool-cases (nat_beq (length done) n)) [
      | inl b ↦ (done, ready, kept, All-seen (range_from 0 n) done (ground arith))
      | inr b ↦ absurd (cycle_no (rw b at h))
    ]
  where
    cycle_no : some cycle ≡ some no_cycle → ⊥
    cycle_no h = cc
order_of_visited n es (stopped done) m e h = cc
order_of_visited n es out_of_fuel m e h = cc

pub length-range : (k n : ℕ) → length (range_from k n) ≡ n
length-range k zero = refl
length-range k (suc n) = omega (arith, length-range (suc k) n)

-- Where `detect_cycle` answers that there is no cycle, all the steps can be put in an order in
-- which each one stands once, behind all the steps with an edge into it.
pub detect_cycle-HasOrder :
    (n : ℕ) (edges : List Edge) → detect_cycle n edges ≡ some no_cycle → HasOrder n edges
unfolding detect_cycle
detect_cycle-HasOrder zero edges h = ([], tt, tt, tt)
detect_cycle-HasOrder (suc n) edges h =
    elim (Bool-cases (all (λ (e : Edge). ltb e.to_step (suc n)) edges)) [
      | inr b ↦ absurd (index_no (rw b at h))
      | inl b ↦
          order_of_visited (suc n) edges (kahn (λ v c. some c) (range_from 0 (suc n)) edges tt)
            (length-range 0 (suc n))
            (kahn-Ends (λ v c. some c) (range_from 0 (suc n)) edges tt
              (λ v. (occurs-range v 0 (suc n)).0) (range_to (suc n) edges b))
            (rw b at h)
    ]
  where
    index_no : some index_error ≡ some no_cycle → ⊥
    index_no h = cc

-- ===== src/Workflow/Kahn.antt =====
-- database_utils/utils/workflow_engine.py: `execute_workflow` and `detect_cycle` (Kahn's algorithm).
-- `execute_step` is an argument; the database rows of an execution are its status and the order of
-- its step executions.
use models_utils.Prelude.{
  ℕ, zero, suc, Bool, true, false, ◌&&◌, Option, none, some, List, [], ◌∷◌, ◌++◌, map, ltb, nat_beq,
  nat_eq, contains, lookup, assign, length, all, keep_if, if◌then◌else◌,
}
use models_utils.Prelude.Int.{ℤ, pos, negsuc}

pub record Edge : Type 0 where
  pub from_step : ℕ
  pub to_step : ℕ

abbrev pub Degrees : Type 0
Degrees = List (ℕ × ℤ)

-- `in_degree[v]`; a key is there from the start.
abbrev pub or_zero : Option ℤ → ℤ
or_zero none = pos 0
or_zero (some x) = x

abbrev pub degree_of : Degrees → ℕ → ℤ
degree_of d v = or_zero (lookup d v)

-- `x + 1` and `x - 1`
abbrev pub increment : ℤ → ℤ
increment (pos n) = pos (suc n)
increment (negsuc zero) = pos 0
increment (negsuc (suc n)) = negsuc n

abbrev pub decrement : ℤ → ℤ
decrement (pos zero) = negsuc 0
decrement (pos (suc n)) = pos n
decrement (negsuc n) = negsuc (suc n)

abbrev pub is_zero : ℤ → Bool
is_zero (pos zero) = true
is_zero _ = false

abbrev pub zeros : List ℕ → Degrees
zeros = map λ i. (i, pos 0)

-- The loop over the edges, for `in_degree`.
unfoldable pub count_edges : List Edge → Degrees → Degrees
count_edges [] d = d
count_edges (e ∷ es) d = count_edges es (assign d e.to_step (increment (degree_of d e.to_step)))

-- `adjacency[u]` after the loop over the edges.
unfoldable pub neighbours : List Edge → ℕ → List ℕ
neighbours [] u = []
neighbours (e ∷ es) u =
    let rest = neighbours es u in if nat_beq e.from_step u then e.to_step ∷ rest else rest

abbrev pub enqueue : Bool → ℕ → List ℕ → List ℕ
enqueue true v queue = queue ++ v ∷ []
enqueue false v queue = queue

-- "Reduce in-degree for neighbors": the new degrees and the new queue.
unfoldable pub reduce : List ℕ → Degrees → List ℕ → Degrees × List ℕ
reduce [] d queue = (d, queue)
reduce (v ∷ vs) d queue =
    let x = decrement (degree_of d v) in reduce vs (assign d v x) (enqueue (is_zero x) v queue)

-- The end of the `while queue` loop, with the processed ids, the last one first.
pub data Drained {ℓ} (C : Type ℓ) : Type ℓ where
  drained : List ℕ → C → Drained C
  stopped : List ℕ → Drained C
  out_of_fuel : Drained C

abbrev pub unless_failed {ℓ} : {C : Type ℓ} → Option C → Drained C → (C → Drained C) → Drained C
unless_failed none x f = x
unless_failed (some c) x f = f c

-- The `while queue` loop. `act` runs a step on the context, and is none if the step raises.
unfoldable pub drain {ℓ} :
    {C : Type ℓ} → (ℕ → C → Option C) → List Edge → ℕ → List ℕ → Degrees → List ℕ → C → Drained C
unfolding reduce neighbours
drain act edges f [] d done c = drained done c
drain act edges zero (v ∷ queue) d done c = out_of_fuel
drain act edges (suc f) (v ∷ queue) d done c = unless_failed (act v c) (stopped (v ∷ done)) λ c'.
    let (d', queue') = reduce (neighbours edges v) d queue in
    drain act edges f queue' d' (v ∷ done) c'

-- The degrees and the loop, on all ids.
unfoldable pub kahn {ℓ} : {C : Type ℓ} → (ℕ → C → Option C) → List ℕ → List Edge → C → Drained C
unfolding drain count_edges
kahn act ids edges c =
    let d = count_edges edges (zeros ids) in
    drain act edges (length ids) (keep_if (λ i. is_zero (degree_of d i)) ids) d [] c

-- Both ends of the edge are steps of the workflow.
abbrev pub is_known : List ℕ → Edge → Bool
is_known ids e = contains ids e.from_step && contains ids e.to_step

pub data ExecutionStatus : Type 0 where
  completed failed : ExecutionStatus

-- The execution row, with its step executions, the last one first.
pub record Execution : Type 0 where
  pub status : ExecutionStatus
  pub executed : List ℕ

-- WF-4: steps that were not reached fail the execution.
unfoldable pub conclude {ℓ} : {C : Type ℓ} → List ℕ → Drained C → Option Execution
conclude ids (drained done c) = some (record {
  status = if ltb (length done) (length ids) then failed else completed;
  executed = done;
})
conclude ids (stopped done) = some (record { status = failed; executed = done })
conclude ids out_of_fuel = none

-- The steps' ids are the keys of a dict. The execution is none only without fuel.
unfoldable pub execute_workflow {ℓ} :
    {C : Type ℓ} → (ℕ → C → Option C) → List ℕ → List Edge → C → Option Execution
unfolding kahn conclude
execute_workflow act ids edges c = conclude ids (kahn act ids (keep_if (is_known ids) edges) c)

abbrev pub range_from : ℕ → ℕ → List ℕ
range_from k zero = []
range_from k (suc n) = k ∷ range_from (suc k) n

pub data CycleCheck : Type 0 where
  cycle no_cycle index_error : CycleCheck

unfoldable pub visited_all {ℓ} : {C : Type ℓ} → ℕ → Drained C → Option CycleCheck
visited_all n (drained done c) = some (if nat_beq (length done) n then no_cycle else cycle)
visited_all n (stopped done) = none
visited_all n out_of_fuel = none

-- `in_deg[v]` raises an IndexError for a v that is no step.
unfoldable pub detect_cycle : ℕ → List Edge → Option CycleCheck
unfolding kahn visited_all
detect_cycle zero edges = some no_cycle
detect_cycle (suc n) edges =
    if all (λ (e : Edge). ltb e.to_step (suc n)) edges
    then visited_all {0} (suc n) (kahn (λ v c. some c) (range_from 0 (suc n)) edges tt)
    else some index_error

-- ===== src/Workflow/TriggerLaws.antt =====
-- The laws of the trigger conditions of workflow_engine.py, and of the search for workflows.
use models_utils.Prelude.{
  ℕ, ◌≡◌, refl, ◌∙◌, ap, Bool, true, false, not, ◌&&◌, List, [], ◌∷◌, nat_beq, nat_eq, text_eq,
  contains, any, keep_if, All, arith, Bool-cases, inl, inr,
}
use models_utils.Workflow.Triggers.{
  Trigger, Workflow, Change, is_of_type, fires, is_candidate, fan_out, query_rows, match_rows,
  find_matching_workflows,
}

-- The workflow is to run for the event.
abbrev pub is_started : ℕ → Change → Workflow → Bool
is_started company_id e w = is_candidate company_id w && any (fires e) w.triggers

-- Every workflow of the table has an id of its own.
abbrev pub DistinctIds : List Workflow → Type 0
DistinctIds [] = Unit
DistinctIds (w ∷ ws) = All (λ (x : Workflow). nat_beq w.id x.id ≡ false) ws × DistinctIds ws

-- Rows of a workflow that has been taken, or that does not match, change nothing.
skip_rows :
    (e : Change) (w : Workflow) (ts : List Trigger) (rest : List Workflow) (seen : List ℕ)
    → (not (contains seen w.id) && any (fires e) w.triggers) ≡ false
    → match_rows e seen (fan_out e w ts rest) ≡ match_rows e seen rest
unfolding match_rows
skip_rows e w [] rest seen h = refl
skip_rows e w (t ∷ ts) rest seen h = elim (Bool-cases (is_of_type e t)) [
  | inl b ↦ rw (b, h) (skip_rows e w ts rest seen h)
  | inr b ↦ rw b (skip_rows e w ts rest seen h)
]

seen_self :
    (w : Workflow) (seen : List ℕ) (b : Bool) → (not (contains (w.id ∷ seen) w.id) && b) ≡ false
seen_self w seen b = ground arith

-- Rows of a workflow that matches take it once.
take_rows :
    (e : Change) (w : Workflow) (ts : List Trigger) (rest : List Workflow) (seen : List ℕ)
    → contains seen w.id ≡ false
    → any (fires e) w.triggers ≡ true
    → any (fires e) ts ≡ true
    → match_rows e seen (fan_out e w ts rest) ≡ w ∷ match_rows e (w.id ∷ seen) rest
unfolding match_rows fires
take_rows e w [] rest seen h k l = cc
take_rows e w (t ∷ ts) rest seen h k l = elim (Bool-cases (is_of_type e t)) [
  | inl b ↦
      rw (b, h, k)
        (ap (λ r. w ∷ r)
          (skip_rows e w ts rest (w.id ∷ seen) (seen_self w seen (any (fires e) w.triggers))))
  | inr b ↦ rw b (take_rows e w ts rest seen h k (rw b at l))
]

-- Ids that are not those of the rest do not matter to it.
abbrev Apart : List ℕ → List Workflow → Type 0
Apart seen ws = All (λ (w : Workflow). contains seen w.id ≡ false) ws

Apart-cons :
    (w : Workflow) (seen : List ℕ) (ws : List Workflow)
    → All (λ (x : Workflow). nat_beq w.id x.id ≡ false) ws
    → Apart seen ws
    → Apart (w.id ∷ seen) ws
Apart-cons w seen [] h k = tt
Apart-cons w seen (x ∷ xs) h k =
    let a = h.0 in let b = k.0 in (ground arith, Apart-cons w seen xs h.1 k.1)

match_query :
    (company_id : ℕ) (e : Change) (seen : List ℕ) (ws : List Workflow)
    → DistinctIds ws
    → Apart seen ws
    → match_rows e seen (query_rows company_id e ws) ≡ keep_if (is_started company_id e) ws
unfolding query_rows match_rows
match_query company_id e seen [] h k = refl
match_query company_id e seen (w ∷ ws) h k =
    let rest = query_rows company_id e ws in
    elim (Bool-cases (is_candidate company_id w)) [
      | inr b ↦ rw b (match_query company_id e seen ws h.1 k.1)
      | inl b ↦ elim (Bool-cases (any (fires e) w.triggers)) [
        | inl c ↦
            rw (b, c)
              (take_rows e w w.triggers rest seen k.0 c c
                ∙ ap (λ r. w ∷ r)
                    (match_query company_id e (w.id ∷ seen) ws h.1 (Apart-cons w seen ws h.0 k.1)))
        | inr c ↦
            rw (b, c)
              (skip_rows e w w.triggers rest seen (rw (k.0, c) refl)
                ∙ match_query company_id e seen ws h.1 k.1)
      ]
    ]

Apart-nil : (ws : List Workflow) → Apart [] ws
Apart-nil [] = tt
Apart-nil (w ∷ ws) = (refl, Apart-nil ws)

-- Although the join repeats a workflow for each of its triggers, the search finds each workflow of
-- the table once, in the order of the table: those of the company that are active, of engine
-- version 1 and with a trigger that fires. The ids in the table are distinct.
pub find_matching_workflows-keep_if :
    (company_id : ℕ) (e : Change) (table : List Workflow)
    → DistinctIds table
    → find_matching_workflows company_id e table ≡ keep_if (is_started company_id e) table
unfolding find_matching_workflows
find_matching_workflows-keep_if company_id e table h =
    match_query company_id e [] table h (Apart-nil table)

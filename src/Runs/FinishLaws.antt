-- ===== src/Runs/FinishLaws.antt =====
-- When a rollback ends ROLLED_BACK.
use models_utils.Prelude.{
  ℕ, ◌≡◌, ◌≢◌, ◌↔◌, refl, sym, ◌∙◌, ap, subst, true, Option, none, some, List, [], ◌∷◌, arith,
  nat_beq, nat_beq_iff, nat_eq, lookup, assign, lookup-assign, Bool-cases, inl, inr, if◌then◌else◌,
}
use models_utils.Runs.Rows.{rolled_back, is_ok, Phase, rollback, PlanEntry, Job, Run}
use models_utils.Runs.Session.{Session, close_run, children}
use models_utils.Runs.Rollback.{entry_at, rollback_state}
use models_utils.Runs.Finish.{
  note_latest, latest_rollbacks, not_undone, end_rollback, finish_rollback,
}

-- The last ROLLBACK child of the item in a list of children, else what was found before.
abbrev pub found_in :
    ℕ → Option PlanEntry → Job → Option (PlanEntry × Job) → Option (PlanEntry × Job)
found_in i none job last = last
found_in i (some e) job last = elim e.phase [
  | some rollback ↦ (if nat_beq e.item_id i then some (e, job) else last)
  | _ ↦ last
]

abbrev pub last_rollback : Run → ℕ → List Job → Option (PlanEntry × Job) → Option (PlanEntry × Job)
last_rollback run i [] last = last
last_rollback run i (job ∷ jobs) last =
    last_rollback run i jobs (found_in i (entry_at run job) job last)

lookup-note_latest :
    (o : Option PlanEntry) (job : Job) (latest : List (ℕ × (PlanEntry × Job))) (i : ℕ)
    → lookup (note_latest o job latest) i ≡ found_in i o job (lookup latest i)
lookup-note_latest none job latest i = refl
lookup-note_latest (some e) job latest i = by_phase e.phase refl
  where
    by_phase :
        (p : Option Phase)
        → e.phase ≡ p
        → lookup (note_latest (some e) job latest) i ≡ found_in i (some e) job (lookup latest i)
    by_phase (some rollback) h = rw h (lookup-assign latest e.item_id i (e, job))
    by_phase _ h = rw h

pub lookup-latest_rollbacks :
    (run : Run) (jobs : List Job) (latest : List (ℕ × (PlanEntry × Job))) (i : ℕ)
    → lookup (latest_rollbacks run jobs latest) i ≡ last_rollback run i jobs (lookup latest i)
unfolding latest_rollbacks
lookup-latest_rollbacks run [] latest i = refl
lookup-latest_rollbacks run (job ∷ jobs) latest i =
    lookup-latest_rollbacks run jobs (note_latest (entry_at run job) job latest) i
    ∙ ap (last_rollback run i jobs) (lookup-note_latest (entry_at run job) job latest i)

-- Each key once.
abbrev pub Distinct {ℓ} : {V : Type ℓ} → List (ℕ × V) → Type ℓ
Distinct [] = Unit
Distinct ((i, x) ∷ d) = (lookup d i ≡ none) × Distinct d

pub Distinct-assign {ℓ} :
    {V : Type ℓ} (d : List (ℕ × V)) (k : ℕ) (x : V) → Distinct d → Distinct (assign d k x)
Distinct-assign [] k x h = (refl, tt)
Distinct-assign ((i, y) ∷ d) k x h = elim (Bool-cases (nat_beq i k)) [
  | inl e ↦ rw e h
  | inr e ↦ rw e (rw (lookup-assign d k i x) (ground arith), Distinct-assign d k x h.1)
]

pub Distinct-latest_rollbacks :
    (run : Run) (jobs : List Job) (latest : List (ℕ × (PlanEntry × Job)))
    → Distinct latest
    → Distinct (latest_rollbacks run jobs latest)
unfolding latest_rollbacks
Distinct-latest_rollbacks run [] latest h = h
Distinct-latest_rollbacks run (job ∷ jobs) latest h =
    Distinct-latest_rollbacks run jobs _ (noted (entry_at run job))
  where
    noted : (o : Option PlanEntry) → Distinct (note_latest o job latest)
    noted none = h
    noted (some e) = by_phase e.phase refl
      where
        by_phase : (p : Option Phase) → e.phase ≡ p → Distinct (note_latest (some e) job latest)
        by_phase (some rollback) k = rw k (Distinct-assign latest e.item_id (e, job) h)
        by_phase _ k = rw k h

-- Every entry that can be looked up has a child that succeeded.
abbrev AllOk : List (ℕ × (PlanEntry × Job)) → Type 0
AllOk d = (i : ℕ) (e : PlanEntry) (job : Job) → lookup d i ≡ some (e, job) → is_ok job.status ≡ true

none-some : {x : PlanEntry × Job} → none ≡ some x → ⊥
none-some h = cc

cons_not_nil : (x : PlanEntry × Job) (xs : List (PlanEntry × Job)) → x ∷ xs ≢ []
cons_not_nil x xs h = cc

same_job :
    (f e : PlanEntry) (j k : Job)
    → ◌≡◌ {A = Option (PlanEntry × Job)} (some (f, j)) (some (e, k))
    → j ≡ k
same_job f e j k h = cc

AllOk-of_nil : (d : List (ℕ × (PlanEntry × Job))) → not_undone d ≡ [] → AllOk d
AllOk-of_nil [] h i e job k = cc
AllOk-of_nil ((j, (f, job')) ∷ d) h i e job k = elim (Bool-cases (is_ok job'.status)) [
  | inr b ↦ absurd (cons_not_nil (f, job') (not_undone d) (rw b at h))
  | inl b ↦ elim (Bool-cases (nat_beq j i)) [
    | inr c ↦ AllOk-of_nil d (rw b at h) i e job (rw c at k)
    | inl c ↦ subst (λ (k' : Job). is_ok k'.status ≡ true) (same_job f e job' job (rw c at k)) b
  ]
]

nil_of_AllOk : (d : List (ℕ × (PlanEntry × Job))) → Distinct d → AllOk d → not_undone d ≡ []
nil_of_AllOk [] h ok = refl
nil_of_AllOk ((j, (f, job)) ∷ d) h ok =
    let first : is_ok job.status ≡ true = ok j f job (rw ((nat_beq_iff j j).1 refl)) in
    rw first (nil_of_AllOk d h.1 (λ i e job' k. ok i e job' (skip i e job' k)))
  where
    skip :
        (i : ℕ) (e : PlanEntry) (job' : Job)
        → lookup d i ≡ some (e, job')
        → lookup ((j, (f, job)) ∷ d) i ≡ some (e, job')
    skip i e job' k = elim (Bool-cases (nat_beq j i)) [
      | inr c ↦ rw c k
      | inl c ↦ absurd (none-some (sym h.0 ∙ ap (lookup d) ((nat_beq_iff j i).0 c) ∙ k))
    ]

rolled_back_of_nil :
    (left : List (PlanEntry × Job)) (no_rollback : List ℕ) (s : Session)
    → ((end_rollback left no_rollback s).run.status ≡ rolled_back)
      ↔ ((left ≡ []) × (no_rollback ≡ []))
unfolding end_rollback close_run
rolled_back_of_nil [] [] s = (λ h. (refl, refl), λ h. refl)
rolled_back_of_nil [] (i ∷ is) s = (λ h. cc, λ h. cc (h.1))
rolled_back_of_nil (x ∷ xs) no_rollback s = (λ h. cc, λ h. cc (h.0))

-- The end of a rollback is ROLLED_BACK exactly when the last ROLLBACK child of every item
-- succeeded and no device lacks a rollback.
pub finish_rollback-rolled_back_iff :
    (s : Session)
    → ((finish_rollback s).run.status ≡ rolled_back) ↔ (
        ((i : ℕ) (e : PlanEntry) (job : Job)
          → last_rollback s.run i (children s) none ≡ some (e, job)
          → is_ok job.status ≡ true)
        × ((rollback_state s.run).no_rollback ≡ []))
unfolding finish_rollback
finish_rollback-rolled_back_iff s =
    let latest = latest_rollbacks s.run (children s) [] in
    let same = lookup-latest_rollbacks s.run (children s) [] in
    let ends = rolled_back_of_nil (not_undone latest) (rollback_state s.run).no_rollback s in
    (
      λ h. let (a, b) = ends.0 h in (λ i e job k. AllOk-of_nil latest a i e job (same i ∙ k), b),
      λ h. ends.1 (
        nil_of_AllOk latest (Distinct-latest_rollbacks s.run (children s) [] tt)
            (λ i e job k. h.0 i e job (sym (same i) ∙ k)),
        h.1,
      ),
    )

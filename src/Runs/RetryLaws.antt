-- ===== src/Runs/RetryLaws.antt =====
-- `retry_rollback` of provisioning_runs.py: what it plans again, queues or closes.
use mathlib.Core.List.{reverse}
use models_utils.Prelude.{
  ℕ, ◌≡◌, ◌↔◌, inl, inr, refl, sym, ◌∙◌, ap, subst, append-nil, false, Option, none, some, List, [],
  ◌∷◌, ◌++◌, get_elem?, contains, nat_eq, nat_beq, ltb, All, Text, Bool-cases,
}
use models_utils.Runs.Rows.{is_configuration, Definition, PlanEntry, Job, position_of}
use models_utils.Runs.Session.{Session, children}
use models_utils.Runs.Rollback.{
  is_wanted, plan_rollback, record_rollback, rollback_state, insert_sorted, sorted_union,
}
use models_utils.Runs.UndoLaws.{
  due, due_all, undoing, lacking, rollback_plan, undefined_for, plan_rollback-rollback_plan, Undoes,
  rollback_plan-Undoes,
}
use models_utils.Runs.OfficeGuards.{RetryGuard, rollback_retry_refusal-RetryGuard}
use models_utils.Runs.RetryEnds.{cause_of, RetryCloses, queue_or_finish-Ends}
use models_utils.Runs.RetryItems.{needs_retry, contains-retry_items}
use models_utils.Runs.OfficeLaws.{Acts, Ends, unless_refused-Acts}
use models_utils.Runs.Office.{
  reopen, restore_cause, retry_items, retry_entries, queue_or_finish, start_retry, retry_rollback,
  rollback_retry_refusal,
}

-- Nothing is due where no item is wanted.
due_all-nobody {ℓ} :
    {A : Type ℓ} (f : Definition → PlanEntry → List Text → List A) (ds : List (ℕ × Definition))
    (plan : List PlanEntry) (jobs : List Job)
    → due_all f (λ i. false) ds plan jobs ≡ []
due_all-nobody f ds plan [] = refl
due_all-nobody f ds plan (job ∷ jobs) =
    ap (λ l. l ++ due_all f (λ i. false) ds plan jobs)
      (due_nobody (get_elem? plan (position_of job)))
    ∙ due_all-nobody f ds plan jobs
  where
    due_nobody : (o : Option PlanEntry) → due f (λ i. false) ds job o ≡ []
    due_nobody none = refl
    due_nobody (some e) = elim (Bool-cases (is_configuration e.phase)) [
      | inl b ↦ rw b refl
      | inr b ↦ rw b refl
    ]

insert_not_nil : (i : ℕ) (is : List ℕ) → insert_sorted i is ≡ [] → ⊥
insert_not_nil i [] h = cc
insert_not_nil i (j ∷ js) h = elim (Bool-cases (nat_beq i j)) [
  | inl b ↦ cc (rw b at h)
  | inr b ↦ elim (Bool-cases (ltb i j)) [
    | inl c ↦ cc (rw (b, c) at h)
    | inr c ↦ cc (rw (b, c) at h)
  ]
]

sorted_union-nil : (is acc : List ℕ) → (sorted_union is acc ≡ []) ↔ ((is ≡ []) × (acc ≡ []))
unfolding sorted_union
sorted_union-nil [] acc = (λ h. (refl, h), λ (a, b). b)
sorted_union-nil (i ∷ is) acc = (
  λ h. absurd (insert_not_nil i acc ((sorted_union-nil is (insert_sorted i acc)).0 h).1),
  λ (a, b). cc,
)

-- The items of the retry, planned again.
retry_entries-Ends :
    (s : Session) (is : List ℕ)
    → ((i : ℕ) → contains is i ≡ needs_retry s i)
    → Ends
        (cause_of s)
        s
        (rollback_plan s (needs_retry s))
        (RetryCloses s)
        (queue_or_finish (retry_entries (reopen (restore_cause s)) is))
unfolding retry_entries record_rollback children
retry_entries-Ends s [] same =
    let ds = s.run.frames.definitions in
    let jobs = reverse (children s) in
    let nobody : needs_retry s ≡ (λ i. false) = λ k i. sym (same i) k in
    let nothing : rollback_plan s (needs_retry s) ≡ [] =
      ap (rollback_plan s) nobody ∙ due_all-nobody undoing ds s.run.plan jobs in
    let lacks : undefined_for s (needs_retry s) ≡ [] =
      ap (undefined_for s) nobody ∙ due_all-nobody lacking ds s.run.plan jobs in
    subst
      (λ es.
        Ends (cause_of s) s es (RetryCloses s)
          (queue_or_finish (retry_entries (reopen (restore_cause s)) [])))
      (sym nothing)
      (queue_or_finish-Ends s (reopen (restore_cause s)) []
        (record { id = refl; dry = refl; jobs = refl; events = refl; clock = refl })
        (sym (append-nil s.run.plan)) refl refl refl (λ h. (h, lacks), λ (h, k). h) tt)
retry_entries-Ends s (i ∷ is) same =
    let t = reopen (restore_cause s) in
    let u = plan_rollback t (some (i ∷ is)) in
    let (es, ns) = plan_rollback-rollback_plan t (some (i ∷ is)) in
    let wanted : is_wanted (some (i ∷ is)) ≡ needs_retry s = λ k j. same j k in
    let planned : u.entries ≡ rollback_plan s (needs_retry s) = es ∙ ap (rollback_plan s) wanted in
    let lacks : u.no_rollback ≡ undefined_for s (needs_retry s) =
      ns ∙ ap (undefined_for s) wanted in
    let union =
      sorted_union-nil u.no_rollback (sorted_union (rollback_state s.run).no_rollback []) in
    let known = sorted_union-nil (rollback_state s.run).no_rollback [] in
    subst
      (λ es. Ends (cause_of s) s es (RetryCloses s) (queue_or_finish (retry_entries t (i ∷ is))))
      planned
      (queue_or_finish-Ends s (record_rollback u.entries u.no_rollback t) u.entries
        (record { id = refl; dry = refl; jobs = refl; events = refl; clock = refl }) refl refl refl
        refl
        (
          λ h. let (a, b) = union.0 h in ((known.0 b).0, sym lacks ∙ a),
          λ (a, b). union.1 (lacks ∙ b, known.1 (a, refl)),
        )
        (subst (All Undoes) (sym es) (rollback_plan-Undoes t (is_wanted (some (i ∷ is))))))

-- A refusal to retry a rollback gives a reason that holds of the run. A rollback that is retried is
-- that of a run, no dry run, that has a phase and FAILED as ROLLBACK_INCOMPLETE, and no other run of
-- its service is in flight or, dry runs apart, newer. Its plan then gets the ROLLBACK entries of the
-- devices whose last ROLLBACK child did not succeed, or that were planned and had none. The first
-- such entry has one child queued, at its own position, and the run is back in flight with the
-- outcome code of its cause. Without entries the run is closed, ROLLED_BACK or FAILED as
-- ROLLBACK_INCOMPLETE, the first exactly when the last ROLLBACK child of each item succeeded and no
-- device lacks a rollback.
pub retry_rollback-Acts :
    (s : Session)
    → Acts
        (RetryGuard s)
        (Ends (cause_of s) s (rollback_plan s (needs_retry s)) (RetryCloses s))
        (retry_rollback s)
unfolding retry_rollback start_retry
retry_rollback-Acts s =
    unless_refused-Acts (RetryGuard s)
      (Ends (cause_of s) s (rollback_plan s (needs_retry s)) (RetryCloses s))
      (rollback_retry_refusal s)
      (queue_or_finish (retry_entries (reopen (restore_cause s)) (retry_items s)))
      (rollback_retry_refusal-RetryGuard s)
      (retry_entries-Ends s (retry_items s) (contains-retry_items s))

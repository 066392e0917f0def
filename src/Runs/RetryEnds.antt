-- ===== src/Runs/RetryEnds.antt =====
-- `retry_rollback` of provisioning_runs.py: how a retry ends once its entries are planned.
use models_utils.Prelude.{
  ℕ, ◌≡◌, ◌↔◌, ◌⊎◌, inl, inr, refl, sym, ◌∙◌, ap, append-nil, Bool, true, false, not, Option, none,
  some, List, [], ◌∷◌, ◌++◌, get_elem?, nat_eq, All, Option-cases,
}
use models_utils.Runs.Rows.{
  failed, rolled_back, is_ok, Outcome, rollback_incomplete, PlanEntry, Job, position_of, Run,
  in_flight,
}
use models_utils.Runs.Session.{Session, children, close_run}
use models_utils.Runs.Rollback.{rollback_state}
use models_utils.Runs.Finish.{finish_rollback, end_rollback, latest_rollbacks, not_undone}
use models_utils.Runs.FinishLaws.{last_rollback, found_in, finish_rollback-rolled_back_iff}
use models_utils.Runs.Moves.{Moved-shift, Alike, finish_rollback-Closed}
use models_utils.Runs.UndoLaws.{undefined_for, Undoes}
use models_utils.Runs.RetryItems.{not_done, needs_retry}
use models_utils.Runs.OfficeLaws.{Ends, queue_child-Ends}
use models_utils.Runs.Office.{queue_or_finish}

-- The outcome code of what the rollback undoes.
abbrev pub cause_of : Session → Option Outcome
cause_of s = elim (rollback_state s.run).cause_code [ none ↦ s.run.error_code | some c ↦ some c ]

-- A retry without entries ends ROLLED_BACK with the code of its cause, or FAILED as incomplete. It is
-- the first exactly when the last ROLLBACK child of each item succeeded and no device, known or found
-- now, lacks a rollback.
abbrev pub RetryCloses : Session → Session → Type 0
RetryCloses s t =
    (((t.run.status ≡ rolled_back) × (t.run.error_code ≡ cause_of s))
      ⊎ ((t.run.status ≡ failed) × (t.run.error_code ≡ some rollback_incomplete)))
    × ((t.run.status ≡ rolled_back) ↔ (
        ((i : ℕ) → not_done false (last_rollback s.run i (children s) none) ≡ false)
        × ((rollback_state s.run).no_rollback ≡ [])
        × (undefined_for s (needs_retry s) ≡ [])))

last_rollback-same :
    (r r' : Run) (i : ℕ) (jobs : List Job) (last : Option (PlanEntry × Job))
    → r.plan ≡ r'.plan
    → last_rollback r i jobs last ≡ last_rollback r' i jobs last
last_rollback-same r r' i [] last h = refl
last_rollback-same r r' i (job ∷ jobs) last h =
    ap (λ plan. last_rollback r i jobs (found_in i (get_elem? plan (position_of job)) job last)) h
    ∙ last_rollback-same r r' i jobs (found_in i (get_elem? r'.plan (position_of job)) job last) h

ok_of_done : (b : Bool) → not b ≡ false → b ≡ true
ok_of_done true h = refl
ok_of_done false h = cc

done_of_ok : (b : Bool) → b ≡ true → not b ≡ false
done_of_ok true h = refl
done_of_ok false h = cc

done_iff :
    (o : Option (PlanEntry × Job))
    → (((e : PlanEntry) (job : Job) → o ≡ some (e, job) → is_ok job.status ≡ true))
      ↔ (not_done false o ≡ false)
done_iff o = (
  λ h. elim (Option-cases o) [
    | inl e ↦ rw e refl
    | inr ((e, job), k) ↦ rw k (done_of_ok (is_ok job.status) (h e job k))
  ],
  λ h e job k. ok_of_done (is_ok job.status) (sym (ap (not_done false) k) ∙ h),
)

end_rollback-plan :
    (left : List (PlanEntry × Job)) (ns : List ℕ) (s : Session)
    → (end_rollback left ns s).run.plan ≡ s.run.plan
unfolding end_rollback close_run
end_rollback-plan [] [] s = refl
end_rollback-plan [] (n ∷ ns) s = refl
end_rollback-plan (x ∷ xs) ns s = refl

plan-finish_rollback : (s : Session) → (finish_rollback s).run.plan ≡ s.run.plan
unfolding finish_rollback
plan-finish_rollback s = end_rollback-plan _ _ s

end_rollback-status :
    (left : List (PlanEntry × Job)) (ns : List ℕ) (s : Session)
    → (((end_rollback left ns s).run.status ≡ rolled_back)
        × ((end_rollback left ns s).run.error_code ≡ s.run.error_code))
      ⊎ (((end_rollback left ns s).run.status ≡ failed)
          × ((end_rollback left ns s).run.error_code ≡ some rollback_incomplete))
unfolding end_rollback close_run
end_rollback-status [] [] s = inl (refl, refl)
end_rollback-status [] (n ∷ ns) s = inr (refl, refl)
end_rollback-status (x ∷ xs) ns s = inr (refl, refl)

finish_rollback-RetryCloses :
    (s u : Session)
    → u.run.plan ≡ s.run.plan
    → u.run.error_code ≡ cause_of s
    → children u ≡ children s
    → ((rollback_state u.run).no_rollback ≡ [])
      ↔ (((rollback_state s.run).no_rollback ≡ []) × (undefined_for s (needs_retry s) ≡ []))
    → RetryCloses s (finish_rollback u)
unfolding finish_rollback
finish_rollback-RetryCloses s u planned known same lacks =
    let ends = finish_rollback-rolled_back_iff u in
    let last : (i : ℕ)
        → last_rollback u.run i (children u) none ≡ last_rollback s.run i (children s) none =
      λ i.
        ap (λ js. last_rollback u.run i js none) same
        ∙ last_rollback-same u.run s.run i (children s) none planned in
    (
      elim (end_rollback-status (not_undone (latest_rollbacks u.run (children u) []))
          (rollback_state u.run).no_rollback u) [ inl (a, b) ↦ inl (a, b ∙ known) | inr f ↦ inr f ],
      (
        λ h.
            let (all_ok, none_lacks) = ends.0 h in
            (
              λ i.
                  sym (ap (not_done false) (last i)) ∙ (done_iff _).0 (λ e job k. all_ok i e job k),
              (lacks.0 none_lacks).0,
              (lacks.0 none_lacks).1,
            ),
        λ (all_done, known_lack, new_lack). ends.1 (
          λ i.
              (done_iff (last_rollback u.run i (children u) none)).1
                (ap (not_done false) (last i) ∙ all_done i),
          lacks.1 (known_lack, new_lack),
        ),
      ),
    )

pub queue_or_finish-Ends :
    (s u : Session) (es : List PlanEntry)
    → Alike s u
    → u.run.plan ≡ s.run.plan ++ es
    → in_flight u.run.status ≡ true
    → u.run.error_code ≡ cause_of s
    → children u ≡ children s
    → ((rollback_state u.run).no_rollback ≡ [])
      ↔ (((rollback_state s.run).no_rollback ≡ []) × (undefined_for s (needs_retry s) ≡ []))
    → All Undoes es
    → Ends (cause_of s) s es (RetryCloses s) (queue_or_finish (u, es))
unfolding queue_or_finish
queue_or_finish-Ends s u [] alike planned going known same lacks undoes =
    let kept = planned ∙ append-nil s.run.plan in
    (
      Moved-shift 0 (finish_rollback u, none) alike (finish_rollback-Closed u),
      plan-finish_rollback u ∙ kept,
      finish_rollback-RetryCloses s u kept known same lacks,
    )
queue_or_finish-Ends s u (e ∷ es) alike planned going known same lacks (undoes, more) =
    queue_child-Ends (cause_of s) s u e es (RetryCloses s) alike planned going known undoes

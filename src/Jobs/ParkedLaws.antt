-- ===== src/Jobs/ParkedLaws.antt =====
-- Which steps a parked job that fails in provisioning_jobs.py counts as run.
use models_utils.Prelude.{
  ℕ, ◌≡◌, ◌≢◌, refl, Bool, true, false, not, ◌||◌, none, some, List, [], ◌∷◌, ◌++◌, Text, codes,
  text_eq, text_beq_iff, contains, any, arith, Option-cases, inl, inr,
}
use models_utils.Runs.Rows.{failed, LogStep, LogItem, entry}
use models_utils.Runs.Plan.{session_probe_step}
use models_utils.Runs.Logs.{is_text, ran_steps}
use models_utils.Runs.LogLaws.{may_have_run, ran_steps-contains}
use models_utils.Jobs.Finish.{JobRow, Desk, FollowOn, finish_row}
use models_utils.Jobs.Parked.{fail_entry, fail_last, is_guided, failed_row, fail_parked}
use models_utils.Jobs.Laws.{not_equal}

failed_runs :
    (guided : Bool) (code display w : Text) (e : LogStep)
    → e.name ≡ some w
    → may_have_run w (entry (fail_entry guided code display e)) ≡ not guided
failed_runs true code display w e n = rw (n, (text_beq_iff w w).1 refl)
failed_runs false code display w e n = rw (n, (text_beq_iff w w).1 refl)

last_runs :
    (guided : Bool) (code display w : Text) (before : List LogItem) (e : LogStep)
    → e.name ≡ some w
    → is_text (codes "PENDING") e.status ≡ true
    → any (may_have_run w) (fail_last guided code display (before ++ entry e ∷ []))
      ≡ (any (may_have_run w) before || not guided)
unfolding fail_last
last_runs g code display w [] e n p = rw p (ground (arith, failed_runs g code display w e n))
last_runs g code display w (x ∷ []) e n p = ground (arith, last_runs g code display w [] e n p)
last_runs g code display w (x ∷ y ∷ ys) e n p =
    ground (arith, last_runs g code display w (y ∷ ys) e n p)

failed_log :
    (now : ℕ) (code display : Text) (r : JobRow)
    → let log = (finish_row failed (some code) now (failed_row code display r)).job.log in
      (log.steps ≡ fail_last (is_guided r) code display r.job.log.steps)
      × (log.interrupted_step ≡ r.job.log.interrupted_step)
unfolding finish_row failed_row
failed_log now code display r = elim (Option-cases r.job.run_id) [
  | inl e ↦ rw e (refl, refl)
  | inr (i, e) ↦ rw e (refl, refl)
]

-- A parked job that fails, by expiry or by an abort, with the entry of its step pending at the end
-- of its log and no interrupted step from before: the step counts as run exactly when it was a
-- manual one, or an earlier entry of its name counts. A guided step was not sent.
pub fail_parked-ran_steps :
    (raises : FollowOn → Bool) (code display : Text) (r : JobRow) (d : Desk) (before : List LogItem)
    (e : LogStep) (w : Text)
    → r.job.log.steps ≡ before ++ entry e ∷ []
    → e.name ≡ some w
    → is_text (codes "PENDING") e.status ≡ true
    → r.job.log.interrupted_step ≡ none
    → w ≢ session_probe_step
    → contains (ran_steps (fail_parked raises code display r d).0.job) w
      ≡ (any (may_have_run w) before || not (is_guided r))
unfolding fail_parked
fail_parked-ran_steps raises code display r d before e w at named pending fresh real =
    let (steps, old) = failed_log d.session.clock code display r in
    rw
      (
        ran_steps-contains
            (finish_row failed (some code) d.session.clock (failed_row code display r)).job w,
        not_equal w session_probe_step real,
        steps,
        old,
        fresh,
        at,
        last_runs (is_guided r) code display w before e named pending,
      )
      (ground arith)

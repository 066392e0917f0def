-- ===== src/Runs/RepairLaws.antt =====
-- A repaired run moves on: one child is queued, or the run is closed.
use models_utils.Prelude.{
  ℕ, ◌<◌, ◌≤◌, ◌≡◌, inl, inr, refl, ap, ◌∙◌, Bool, true, false, not, ◌&&◌, Option, none, some, List,
  [], ◌∷◌, ◌++◌, arith, ltb, length, any, get_elem?, Bool-cases, if◌then◌else◌,
}
use models_utils.Runs.Rows.{
  queued, succeeded, failed, in_flight, rollback_incomplete, stranded_run_expired, PlanEntry, Job,
  position_of, Run,
}
use models_utils.Runs.Session.{Session, queue_entry, queue_child, close_run, is_child_of, child_at}
use models_utils.Runs.Rollback.{enter_rollback}
use models_utils.Runs.Advance.{advance_run, is_stale, is_later}
use models_utils.Runs.Moves.{Closed, Moved, close_run-Closed, status-enter_phase}
use models_utils.Runs.AdvanceLaws.{advance_run-Moved, enter_rollback-Moved}
use models_utils.Runs.Repair.{
  last_child, later_of, repair_run, repair_last, expire, restart, resume_rollback, or_succeeded,
  is_expired, still_runs, is_rolling_back, is_forward, lost_advance, stranded_text,
}

-- One queued child of the run is new, or the run is closed with its event.
abbrev pub MovesOn : Session → Session × Option Job → Type 0
MovesOn s (t, none) = Closed s t
MovesOn s (t, some c) =
    (t.jobs ≡ s.jobs ++ c ∷ [])
    × (c.run_id ≡ some s.run.id)
    × (c.status ≡ queued)
    × (in_flight t.run.status ≡ true)
    × (t.events ≡ s.events)

pub of_Moved : (p : ℕ) (s : Session) (r : Session × Option Job) → Moved p s r → MovesOn s r
of_Moved p s (t, none) c = c
of_Moved p s (t, some j) q = (q.jobs, q.mine, q.waits, q.going, q.events)

-- The last child of a run: none where it has no child, else one of its own behind which there is
-- none.
abbrev IsLast : Run → List Job → Option Job → Type 0
IsLast run js none = (p : ℕ) → any (is_later run p) js ≡ false
IsLast run js (some j) =
    (is_child_of run j ≡ true) × ((p : ℕ) → position_of j ≤ p → any (is_later run p) js ≡ false)

cons-IsLast :
    (run : Run) (j : Job) (js : List Job) (o : Option Job) (mine : Bool)
    → is_child_of run j ≡ mine
    → IsLast run js o
    → IsLast run (j ∷ js) (if mine then some (later_of j o) else o)
cons-IsLast run j js none true e h = (e, λ p k. ground (arith, h p))
cons-IsLast run j js none false e h = λ p. rw e (h p)
cons-IsLast run j js (some k) false e h = (h.0, λ p l. rw e (h.1 p l))
cons-IsLast run j js (some k) true e h = elim (Bool-cases (ltb (position_of j) (position_of k))) [
  | inl b ↦ rw b (h.0, λ p l. ground (arith, h.1 p l))
  | inr b ↦ rw b (e, λ p l. let r = h.1 p (ground arith) in ground (arith, r))
]

last_child-IsLast : (run : Run) (js : List Job) → IsLast run js (last_child run js)
unfolding last_child
last_child-IsLast run [] = λ p. refl
last_child-IsLast run (j ∷ js) =
    cons-IsLast run j js (last_child run js) (is_child_of run j) refl (last_child-IsLast run js)

fresh_last :
    (s : Session) (job : Job)
    → in_flight s.run.status ≡ true
    → in_flight job.status ≡ false
    → IsLast s.run s.jobs (some job)
    → is_stale s job ≡ false
fresh_last s job going ended (mine, top) =
    let none_later = top (position_of job) (omega arith) in ground arith

advance-MovesOn :
    (s : Session) (job : Job)
    → in_flight s.run.status ≡ true
    → in_flight job.status ≡ false
    → IsLast s.run s.jobs (some job)
    → MovesOn s (advance_run job s)
advance-MovesOn s job going ended last =
    of_Moved (position_of job) s (advance_run job s)
      (advance_run-Moved job s (fresh_last s job going ended last))

first-MovesOn :
    (s : Session) (o : Option PlanEntry)
    → in_flight s.run.status ≡ true
    → MovesOn s (or_succeeded (queue_entry s 0 o))
unfolding queue_entry child_at
first-MovesOn s none going = close_run-Closed succeeded none none s refl
first-MovesOn s (some e) going =
    (refl, refl, refl, ap in_flight (status-enter_phase e.phase s.run) ∙ going, refl)

restart-MovesOn :
    (last : Option Job) (s : Session)
    → in_flight s.run.status ≡ true
    → still_runs last ≡ false
    → IsLast s.run s.jobs last
    → MovesOn s (restart last s)
unfolding restart queue_child
restart-MovesOn none s going ended last = first-MovesOn s (get_elem? s.run.plan 0) going
restart-MovesOn (some job) s going ended last = advance-MovesOn s job going ended last

resume-MovesOn :
    (last : Option Job) (s : Session)
    → in_flight s.run.status ≡ true
    → still_runs last ≡ false
    → IsLast s.run s.jobs last
    → MovesOn s (resume_rollback last s)
unfolding resume_rollback
resume-MovesOn none s going ended last =
    close_run-Closed failed (some rollback_incomplete) none s refl
resume-MovesOn (some job) s going ended last = advance-MovesOn s job going ended last

MovesOn-if :
    (s : Session) (b : Bool) (x y : Session × Option Job)
    → MovesOn s x
    → MovesOn s y
    → MovesOn s (if b then x else y)
MovesOn-if s true x y hx hy = hx
MovesOn-if s false x y hx hy = hy

expire-MovesOn :
    (last : Option Job) (s : Session)
    → 0 < length s.run.plan
    → in_flight s.run.status ≡ true
    → still_runs last ≡ false
    → IsLast s.run s.jobs last
    → MovesOn s (expire last s)
unfolding expire
expire-MovesOn last s planned going ended top =
    let undo = enter_rollback stranded_run_expired (some stranded_text) false s in
    let shut : Session × Option Job = (close_run failed (some stranded_run_expired) none s, none) in
    let forward = if not s.run.dry_run && is_forward s.run.phase then undo else shut in
    MovesOn-if s (is_rolling_back s.run.phase && not s.run.dry_run) (resume_rollback last s)
      (if not s.run.dry_run && lost_advance last (length s.run.plan)
        then restart last s
        else forward)
      (resume-MovesOn last s going ended top)
      (MovesOn-if s (not s.run.dry_run && lost_advance last (length s.run.plan)) (restart last s)
        forward (restart-MovesOn last s going ended top)
        (MovesOn-if s (not s.run.dry_run && is_forward s.run.phase) undo shut
          (of_Moved 0 s undo
            (enter_rollback-Moved 0 stranded_run_expired (some stranded_text) false s planned))
          (close_run-Closed failed (some stranded_run_expired) none s refl)))

-- A stranded run never stays stranded: where the run is in flight, has a plan and its last child
-- is not in flight, the repair queues exactly one child, with the run still in flight, or closes
-- the run (with one RUN_CLOSED event unless it is dry), whether the run has expired or not.
pub repair_run-MovesOn :
    (updated_at : ℕ) (s : Session)
    → 0 < length s.run.plan
    → in_flight s.run.status ≡ true
    → still_runs (last_child s.run s.jobs) ≡ false
    → MovesOn s (repair_run updated_at s)
unfolding repair_run repair_last
repair_run-MovesOn updated_at s planned going ended =
    let last = last_child s.run s.jobs in
    let top = last_child-IsLast s.run s.jobs in
    rw ended (
      MovesOn-if s (is_expired last updated_at s) (expire last s) (restart last s)
        (expire-MovesOn last s planned going ended top) (restart-MovesOn last s going ended top))

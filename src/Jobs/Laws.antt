-- ===== src/Jobs/Laws.antt =====
-- What the end of a job in provisioning_jobs.py does to its run and to the events.
use models_utils.Prelude.{
  ℕ, ◌≡◌, ◌≢◌, ◌⊎◌, inl, inr, refl, sym, ◌∙◌, ap, subst, Bool, true, false, ◌||◌, Option, none,
  some, List, [], ◌∷◌, ◌++◌, map, append-nil, append_assoc, Text, contains, text_eq, ◌==◌,
  text_beq_iff, length, drop, arith, is_some, Bool-cases, Option-cases, if◌then◌else◌,
}
use models_utils.Runs.Rows.{Status, queued, in_flight, is_ok, Job, position_of, Event}
use models_utils.Runs.Plan.{session_probe_step}
use models_utils.Runs.Logs.{ran_steps}
use models_utils.Runs.LogLaws.{ran_steps-contains}
use models_utils.Runs.Session.{Session}
use models_utils.Runs.Advance.{advance_run, is_stale}
use models_utils.Runs.Moves.{Moved, closing_event}
use models_utils.Runs.AdvanceLaws.{advance_run-Moved}
use models_utils.Runs.Laziness.{advance_run-stale}
use models_utils.Jobs.Finish.{
  JobRow, Desk, Emitted, run_closed, job_finished, FollowOn, device_action_log, connectivity_stamp,
  advance, event, write_device_action_log, stamp_connectivity, advance_follow_on, emit_finished,
  finished_event, in_savepoint, with_action, tr069_steps, is_check, finish_row, put_job, flushed,
  finish_job,
}

drop-append {ℓ} : {A : Type ℓ} (xs ys : List A) → drop (length xs) (xs ++ ys) ≡ ys
drop-append [] ys = refl
drop-append (x ∷ xs) ys = drop-append xs ys

-- Two desks with one session and one table of events.
record Same (d e : Desk) : Type 0 where
  session : e.session ≡ d.session
  emitted : e.emitted ≡ d.emitted

Same-savepoint :
    (b : Bool) (f : Desk → Desk) (d e : Desk)
    → ((x : Desk) → Same x (f x))
    → Same d e
    → Same d (in_savepoint b f e)
Same-savepoint true f d e k h = h
Same-savepoint false f d e k h = record {
  session = (k e).session ∙ h.session;
  emitted = (k e).emitted ∙ h.emitted;
}

with_action-Same : (r : JobRow) (ws : List (Option Text)) (d : Desk) → Same d (with_action r ws d)
with_action-Same r [] d = record { session = refl; emitted = refl }
with_action-Same r (w ∷ ws) d = record { session = refl; emitted = refl }

write-Same : (r : JobRow) (d : Desk) → Same d (write_device_action_log r d)
unfolding write_device_action_log
write-Same r d = elim (Bool-cases r.job.dry_run) [
  | inl b ↦ rw b (record { session = refl; emitted = refl })
  | inr b ↦ rw b (with_action-Same r (tr069_steps r.job.log.steps) d)
]

stamp-Same : (r : JobRow) (d : Desk) → Same d (stamp_connectivity r d)
unfolding stamp_connectivity
stamp-Same r d = elim (Option-cases r.inventory_item_id) [
  | inl e ↦ rw e (record { session = refl; emitted = refl })
  | inr (item, e) ↦ rw e (elim (Bool-cases (is_check r.playbook_name)) [
    | inl b ↦ rw b (record { session = refl; emitted = refl })
    | inr b ↦ rw b (record { session = refl; emitted = refl })
  ])
]

logged : (FollowOn → Bool) → Bool → JobRow → Desk → Desk
logged raises probed r d =
    if probed
    then in_savepoint (raises connectivity_stamp) (stamp_connectivity r)
        (in_savepoint (raises device_action_log) (write_device_action_log r) d)
    else d

logged-Same :
    (raises : FollowOn → Bool) (probed : Bool) (r : JobRow) (d : Desk)
    → Same d (logged raises probed r d)
unfolding logged
logged-Same raises false r d = record { session = refl; emitted = refl }
logged-Same raises true r d =
    Same-savepoint (raises connectivity_stamp) (stamp_connectivity r) d _ (stamp-Same r) (
      Same-savepoint (raises device_action_log) (write_device_action_log r) d d (write-Same r)
        (record { session = refl; emitted = refl }))

-- What is emitted last: the JOB_FINISHED event, unless its follow-on raises.
abbrev pub last_event : Bool → Bool → JobRow → List Emitted
last_event raises probed r = if raises then [] else job_finished (finished_event probed r) ∷ []

-- From the session `s` and the events `old`: nothing happens to the run; or it is closed, with its
-- RUN_CLOSED event; or it stays in flight with one more child. The event `last` comes after that.
abbrev pub Ending : Bool → Session → List Emitted → List Emitted → Desk → Type 0
Ending quiet s old last d =
    ((quiet ≡ true) × (d.session ≡ s) × (d.emitted ≡ old ++ last))
    ⊎ (((quiet ≡ false)
          × (in_flight d.session.run.status ≡ false)
          × (d.session.jobs ≡ s.jobs)
          × (d.emitted ≡ old ++ (map run_closed (closing_event d.session.run) ++ last)))
        ⊎ ((quiet ≡ false)
            × (in_flight d.session.run.status ≡ true)
            × ((c : Job) × (c.status ≡ queued) × (d.session.jobs ≡ s.jobs ++ c ∷ []))
            × (d.emitted ≡ old ++ last)))

emitted_last :
    (b probed : Bool) (r : JobRow) (d : Desk)
    → (in_savepoint b (emit_finished probed r) d).emitted ≡ d.emitted ++ last_event b probed r
unfolding emit_finished
emitted_last true probed r d = sym (append-nil d.emitted)
emitted_last false probed r d = refl

session_last :
    (b probed : Bool) (r : JobRow) (d : Desk)
    → (in_savepoint b (emit_finished probed r) d).session ≡ d.session
unfolding emit_finished
session_last true probed r d = refl
session_last false probed r d = refl

-- The run's part of the end, before the last event.
abbrev Advancing : Session → List Emitted → Session × Option Job → Desk → Type 0
Advancing s old (t, child) d =
    (d.session ≡ t) × (d.emitted ≡ old ++ map run_closed (drop (length s.events) t.events))

advance_follow_on-Advancing :
    (r : JobRow) (d : Desk)
    → Advancing d.session d.emitted (advance_run r.job d.session) (advance_follow_on r d)
unfolding advance_follow_on
advance_follow_on-Advancing r d = (refl, refl)

new_events :
    (s t : Session) (es : List Event)
    → t.events ≡ s.events ++ es
    → drop (length s.events) t.events ≡ es
new_events s t es h = rw h (drop-append s.events es)

Ending-of-Moved :
    (p : ℕ) (s : Session) (old last : List Emitted) (m : Session × Option Job) (d d' : Desk)
    → Moved p s m
    → Advancing s old m d
    → d'.session ≡ d.session
    → d'.emitted ≡ d.emitted ++ last
    → Ending false s old last d'
Ending-of-Moved p s old last (t, none) d d' m (at, out) e f =
    let all = e ∙ at in
    let told : d'.emitted ≡ old ++ (map run_closed (closing_event t.run) ++ last) =
      f
      ∙ ap (λ es. es ++ last)
          (out
            ∙ ap (λ es. old ++ map run_closed es) (new_events s t (closing_event t.run) m.events))
      ∙ append_assoc old (map run_closed (closing_event t.run)) last in
    inr (
      inl (
        refl,
        subst (λ x. in_flight x.run.status ≡ false) (sym all) m.ended,
        ap (λ x. x.jobs) all ∙ m.jobs,
        subst (λ x. d'.emitted ≡ old ++ (map run_closed (closing_event x.run) ++ last)) (sym all)
            told,
      ))
Ending-of-Moved p s old last (t, some c) d d' m (at, out) e f =
    let all = e ∙ at in
    let none_new = new_events s t [] (m.events ∙ sym (append-nil s.events)) in
    inr (
      inr (
        refl,
        subst (λ x. in_flight x.run.status ≡ true) (sym all) m.going,
        (c, m.waits, ap (λ x. x.jobs) all ∙ m.jobs),
        f
            ∙ ap (λ es. es ++ last)
                (out ∙ ap (λ es. old ++ map run_closed es) none_new ∙ append-nil old),
      ))

advanced :
    (r : JobRow) (d e : Desk)
    → Same d e
    → Advancing d.session d.emitted (advance_run r.job d.session) (advance_follow_on r e)
advanced r d e h =
    subst (λ s. Advancing s d.emitted (advance_run r.job s) (advance_follow_on r e)) h.session
      (subst (λ es. Advancing e.session es (advance_run r.job e.session) (advance_follow_on r e))
        h.emitted (advance_follow_on-Advancing r e))

Ending-of-stale :
    (s : Session) (old last : List Emitted) (d d' : Desk)
    → Advancing s old (s, none) d
    → d'.session ≡ d.session
    → d'.emitted ≡ d.emitted ++ last
    → Ending true s old last d'
Ending-of-stale s old last d d' (at, out) e f =
    let none_new = new_events s s [] (sym (append-nil s.events)) in
    inl (
      refl,
      e ∙ at,
      f
          ∙ ap (λ es. es ++ last)
              (out ∙ ap (λ es. old ++ map run_closed es) none_new ∙ append-nil old),
    )

-- The follow-ons from the advance on, after others that keep the session and the events.
after_logging :
    (stuck lost probed : Bool) (r : JobRow) (d e : Desk)
    → Same d e
    → Ending
        (stuck || is_stale d.session r.job)
        d.session
        d.emitted
        (last_event lost probed r)
        (in_savepoint lost (emit_finished probed r) (in_savepoint stuck (advance_follow_on r) e))
after_logging true lost probed r d e h = inl (
  refl,
  session_last lost probed r e ∙ h.session,
  emitted_last lost probed r e ∙ ap (λ es. es ++ last_event lost probed r) h.emitted,
)
after_logging false lost probed r d e h =
    let x = advance_follow_on r e in
    let last = last_event lost probed r in
    let y = in_savepoint lost (emit_finished probed r) x in
    let at = session_last lost probed r x in
    let out = emitted_last lost probed r x in
    elim (Bool-cases (is_stale d.session r.job)) [
      | inl b ↦
          subst (λ q. Ending q d.session d.emitted last y) (sym b)
            (Ending-of-stale d.session d.emitted last x y
              (subst (λ m. Advancing d.session d.emitted m x) (advance_run-stale r.job d.session b)
                (advanced r d e h))
              at out)
      | inr b ↦
          subst (λ q. Ending q d.session d.emitted last y) (sym b)
            (Ending-of-Moved (position_of r.job) d.session d.emitted last
              (advance_run r.job d.session) x y (advance_run-Moved r.job d.session b)
              (advanced r d e h) at out)
    ]

-- Whichever follow-ons raise: the job's columns stand in the table of jobs. If advance_run raises
-- or the job is stale, its run does not change; else the run is closed and its RUN_CLOSED event
-- (none for a dry run) comes in, or it stays in flight with one more queued child. The JOB_FINISHED
-- event comes last, unless its follow-on raises.
pub finish_job-Ending :
    (raises : FollowOn → Bool) (status : Status) (error : Option Text) (probed : Bool) (r : JobRow)
    (d : Desk)
    → let (r', d') = finish_job raises status error probed r d in
      let s = record d.session { jobs = put_job r'.job d.session.jobs } in
      Ending
        (raises advance || is_stale s r'.job)
        s
        d.emitted
        (last_event (raises event) probed r')
        d'
unfolding finish_job logged
finish_job-Ending raises status error probed r d =
    let r' = finish_row status error d.session.clock r in
    let e = flushed r' d in
    after_logging (raises advance) (raises event) probed r' e (logged raises probed r' e)
      (logged-Same raises probed r' e)

pub not_equal : (v w : Text) → v ≢ w → (v == w) ≡ false
not_equal v w h = elim (Bool-cases (v == w)) [
  | inl b ↦ absurd (h ((text_beq_iff v w).0 b))
  | inr b ↦ b
]

ran_interrupted :
    (job : Job) (w : Text)
    → job.log.interrupted_step ≡ some w
    → w ≢ session_probe_step
    → contains (ran_steps job) w ≡ true
ran_interrupted job w at real =
    rw
      (ran_steps-contains job w, not_equal w session_probe_step real, at, (text_beq_iff w w).1 refl)
      (ground arith)

interrupted_row :
    (status : Status) (now : ℕ) (error : Option Text) (r : JobRow) (w : Text)
    → is_some r.job.run_id ≡ true
    → is_ok status ≡ false
    → r.has_log ≡ true
    → is_some r.progress.inflight_step ≡ true
    → r.progress.inflight_name ≡ some w
    → w ≢ []
    → (finish_row status error now r).job.log.interrupted_step ≡ some w
unfolding finish_row
interrupted_row status now error r [] run bad has step named full = absurd (full refl)
interrupted_row status now error r (c ∷ w) run bad has step named full =
    rw (has, run, bad, step, named)

-- A child of a run that ends without success in the middle of a step whose name its log has: the
-- step counts as run, unless it is the session probe.
pub finish_job-ran_steps :
    (raises : FollowOn → Bool) (status : Status) (error : Option Text) (probed : Bool) (r : JobRow)
    (d : Desk) (w : Text)
    → is_some r.job.run_id ≡ true
    → is_ok status ≡ false
    → r.has_log ≡ true
    → is_some r.progress.inflight_step ≡ true
    → r.progress.inflight_name ≡ some w
    → w ≢ []
    → w ≢ session_probe_step
    → contains (ran_steps (finish_job raises status error probed r d).0.job) w ≡ true
unfolding finish_job
finish_job-ran_steps raises status error probed r d w run bad has step named full real =
    ran_interrupted (finish_row status error d.session.clock r).job w
      (interrupted_row status d.session.clock error r w run bad has step named full) real

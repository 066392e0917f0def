-- ===== src/Runs/Moves.antt =====
-- What a close and a queued child of provisioning_runs.py do to the run, its children and its events.
use models_utils.Prelude.{
  ℕ, ◌<◌, ◌≡◌, refl, sym, append-nil, ◌∙◌, ap, Bool, true, false, Option, none, some, List, [], ◌∷◌,
  ◌++◌, contains, text_eq, if◌then◌else◌,
}
use models_utils.Runs.Rows.{
  Status, queued, in_flight, Phase, is_rollback, PlanEntry, Job, position_of, Run, Event, Outcome,
  Message, rollback_incomplete, succeeded, failed, rolled_back, Playbook, Service,
}
use models_utils.Runs.Session.{
  Session, queue_entry, close_run, child_at, insert_child, enter_phase, children,
}
use models_utils.Runs.Finish.{
  finish_rollback, end_rollback, left_over, log_actions, finish_dry_run, succeed, settling_purposes,
  all_succeeded,
}
use models_utils.Runs.Advance.{next_or, finish_legacy, finish_plan}

-- The event of a close: none for a dry run.
abbrev pub closing_event : Run → List Event
closing_event run =
    if run.dry_run
    then []
    else record { run_id = run.id; status = run.status; error_code = run.error_code } ∷ []

-- From `s` to `t` the run is closed: no child is queued, and one RUN_CLOSED event tells the status.
pub record Closed (s t : Session) : Type 0 where
  pub id : t.run.id ≡ s.run.id
  pub dry : t.run.dry_run ≡ s.run.dry_run
  pub ended : in_flight t.run.status ≡ false
  pub finished : t.run.finished_at ≡ some s.clock
  pub jobs : t.jobs ≡ s.jobs
  pub events : t.events ≡ s.events ++ closing_event t.run

-- From `s` to `t` one child is queued, behind the position `p`, and the run stays in flight.
pub record Queued (p : ℕ) (s t : Session) (c : Job) : Type 0 where
  pub id : t.run.id ≡ s.run.id
  pub dry : t.run.dry_run ≡ s.run.dry_run
  pub going : in_flight t.run.status ≡ true
  pub jobs : t.jobs ≡ s.jobs ++ c ∷ []
  pub mine : c.run_id ≡ some s.run.id
  pub waits : c.status ≡ queued
  pub behind : p < position_of c
  pub events : t.events ≡ s.events

abbrev pub Moved : ℕ → Session → Session × Option Job → Type 0
Moved p s (t, none) = Closed s t
Moved p s (t, some c) = Queued p s t c

-- Two states that a move cannot tell apart.
pub record Alike (s s' : Session) : Type 0 where
  pub id : s'.run.id ≡ s.run.id
  pub dry : s'.run.dry_run ≡ s.run.dry_run
  pub jobs : s'.jobs ≡ s.jobs
  pub events : s'.events ≡ s.events
  pub clock : s'.clock ≡ s.clock

Closed-shift : {s s' t : Session} → Alike s s' → Closed s' t → Closed s t
Closed-shift {t = t} a c = record {
  id = c.id ∙ a.id;
  dry = c.dry ∙ a.dry;
  ended = c.ended;
  finished = c.finished ∙ ap some a.clock;
  jobs = c.jobs ∙ a.jobs;
  events = c.events ∙ ap (λ es. es ++ closing_event t.run) a.events;
}

Queued-shift : {p : ℕ} {s s' t : Session} {j : Job} → Alike s s' → Queued p s' t j → Queued p s t j
Queued-shift {j = j} a q = record {
  id = q.id ∙ a.id;
  dry = q.dry ∙ a.dry;
  going = q.going;
  jobs = q.jobs ∙ ap (λ js. js ++ j ∷ []) a.jobs;
  mine = q.mine ∙ ap some a.id;
  waits = q.waits;
  behind = q.behind;
  events = q.events ∙ a.events;
}

pub Moved-shift :
    (p : ℕ) {s s' : Session} (r : Session × Option Job) → Alike s s' → Moved p s' r → Moved p s r
Moved-shift p (t, none) a m = Closed-shift a m
Moved-shift p (t, some c) a m = Queued-shift a m

append_if {ℓ} :
    {A : Type ℓ} (b : Bool) (xs ys : List A)
    → (if b then xs else xs ++ ys) ≡ xs ++ (if b then [] else ys)
append_if true xs ys = sym (append-nil xs)
append_if false xs ys = refl

pub close_run-Closed :
    (status : Status) (code : Option Outcome) (error : Option Message) (s : Session)
    → in_flight status ≡ false
    → Closed s (close_run status code error s)
unfolding close_run
close_run-Closed status code error s h = record {
  id = refl;
  dry = refl;
  ended = h;
  finished = refl;
  jobs = refl;
  events = append_if s.run.dry_run s.events _;
}

pub Closed-if :
    {s : Session} (b : Bool) {x y : Session}
    → Closed s x
    → Closed s y
    → Closed s (if b then x else y)
Closed-if true hx hy = hx
Closed-if false hx hy = hy

-- Tables that a close does not read.
Closed-tables :
    {s : Session} (t : Session) (pbs : List Playbook) (svcs : List Service)
    → Closed s t
    → Closed s (record t { playbooks = pbs; services = svcs })
Closed-tables t pbs svcs c = record {
  id = c.id;
  dry = c.dry;
  ended = c.ended;
  finished = c.finished;
  jobs = c.jobs;
  events = c.events;
}

succeed-Closed : (s : Session) → Closed s (succeed s)
unfolding succeed
succeed-Closed s =
    let c = close_run-Closed succeeded none none s refl in
    Closed-if (contains settling_purposes s.run.purpose) (Closed-tables _ _ _ c) c

finish_dry_run-Closed : (s : Session) → Closed s (finish_dry_run s)
unfolding finish_dry_run
finish_dry_run-Closed s =
    Closed-if (all_succeeded (children s))
      (Closed-tables _ _ _ (close_run-Closed succeeded none none s refl))
      (close_run-Closed failed none none s refl)

end_rollback-Closed :
    (left : List (PlanEntry × Job)) (no_rollback : List ℕ) (s : Session)
    → Closed s (end_rollback left no_rollback s)
unfolding end_rollback
end_rollback-Closed [] [] s = close_run-Closed rolled_back none none s refl
end_rollback-Closed left no_rollback s =
    Closed-shift {s' = log_actions left s}
      (record { id = refl; dry = refl; jobs = refl; events = refl; clock = refl })
      (close_run-Closed failed (some rollback_incomplete) (some (left_over left no_rollback s))
        (log_actions left s) refl)

pub finish_rollback-Closed : (s : Session) → Closed s (finish_rollback s)
unfolding finish_rollback
finish_rollback-Closed s = end_rollback-Closed _ _ s

pub finish_plan-Closed : (phase : Phase) (s : Session) → Closed s (finish_plan phase s)
finish_plan-Closed phase s =
    Closed-if s.run.dry_run (finish_dry_run-Closed s)
      (Closed-if (is_rollback phase) (finish_rollback-Closed s) (succeed-Closed s))

pub finish_legacy-Closed : (s : Session) → Closed s (finish_legacy s)
finish_legacy-Closed s =
    Closed-if s.run.dry_run (close_run-Closed succeeded none none s refl) (succeed-Closed s)

-- `enter_phase` changes the phase alone.
id-enter_phase : (o : Option Phase) (run : Run) → (enter_phase o run).id ≡ run.id
id-enter_phase none run = refl
id-enter_phase (some phase) run = refl

dry-enter_phase : (o : Option Phase) (run : Run) → (enter_phase o run).dry_run ≡ run.dry_run
dry-enter_phase none run = refl
dry-enter_phase (some phase) run = refl

pub status-enter_phase : (o : Option Phase) (run : Run) → (enter_phase o run).status ≡ run.status
status-enter_phase none run = refl
status-enter_phase (some phase) run = refl

-- The child of an entry, queued behind the position `p` of a run in flight.
pub insert-Queued :
    (p position : ℕ) (e : PlanEntry) (s : Session)
    → p < position
    → in_flight s.run.status ≡ true
    → Queued p s (insert_child s position e).0 (child_at s position e)
unfolding child_at
insert-Queued p position e s h going = record {
  id = id-enter_phase e.phase s.run;
  dry = dry-enter_phase e.phase s.run;
  going = ap in_flight (status-enter_phase e.phase s.run) ∙ going;
  jobs = refl;
  mine = refl;
  waits = refl;
  behind = h;
  events = refl;
}

-- After `queue_child` the run is set to RUNNING, or is finished where the plan is done.
pub next_or-Moved :
    (p position : ℕ) (o : Option PlanEntry) (s : Session) (finish : Session → Session)
    → p < position
    → in_flight s.run.status ≡ true
    → ((t : Session) → Closed t (finish t))
    → Moved p s (next_or finish (queue_entry s position o))
unfolding next_or queue_entry
next_or-Moved p position none s finish h going ends = ends s
next_or-Moved p position (some e) s finish h going ends =
    let q = insert-Queued p position e s h going in
    record {
      id = q.id;
      dry = q.dry;
      going = refl;
      jobs = q.jobs;
      mine = q.mine;
      waits = q.waits;
      behind = q.behind;
      events = q.events;
    }

-- ===== src/Runs/Session.antt =====
-- database_utils/utils/provisioning_runs.py: the state around one run, `_queue_child`,
-- `close_run` and `_children`.
use models_utils.Prelude.{
  ℕ, suc, ◌*◌, Bool, false, Option, none, some, List, [], ◌∷◌, ◌++◌, leb, nat_beq, nat_eq, Text,
  text_eq, lookup, assign, length, get_elem?, keep_if, if◌then◌else◌,
}
use Prim.Native.Nat.{max}
use models_utils.Runs.Rows.{
  Status, queued, Phase, rollback, Outcome, PlanEntry, Log, Job, position_of, Message, Frames, Run,
  Playbook, Service, Event, ActionLog,
}
use models_utils.Runs.Plan.{job_steps, snapshot}

-- The locked run, the other runs, and the tables that its operations touch. `jobs` are all jobs, in the order of
-- insertion; `clock` is the time, `fresh` the next id.
pub record Session : Type 0 where
  pub run : Run
  pub others : List Run
  pub jobs : List Job
  pub playbooks : List Playbook
  pub services : List Service
  pub events : List Event
  pub actions : List ActionLog
  pub clock : ℕ
  pub fresh : ℕ

abbrev pub empty_log : Log
empty_log = record { steps = []; interrupted_step = none; outputs = []; code = none }

-- `dict.update`
abbrev pub update_all : List (Text × Text) → List (Text × Text) → List (Text × Text)
update_all d [] = d
update_all d ((k, v) ∷ more) = update_all (assign d k v) more

unfoldable pub child_variables : Frames → ℕ → List (Text × Text)
child_variables frames item =
    update_all frames.shared (elim (lookup frames.device item) [ none ↦ [] | some d ↦ d ])

-- `PHASE_MAX_ATTEMPTS`
abbrev pub phase_max_attempts : Phase → ℕ
phase_max_attempts rollback = 5
phase_max_attempts _ = 3

unfoldable pub budget : Frames → PlanEntry → ℕ
unfolding job_steps snapshot
budget frames e = elim e.phase [
  | none ↦ 3
  | some phase ↦
      phase_max_attempts phase
      * max 1 (length (job_steps (snapshot frames.definitions e.playbook_id) phase e.probe))
]

-- The child row of an entry. It holds no device lock.
unfoldable pub child_at : Session → ℕ → PlanEntry → Job
unfolding child_variables budget
child_at s position e = record {
  id = s.fresh;
  run_id = some s.run.id;
  run_position = some position;
  status = queued;
  phase = e.phase;
  playbook_id = e.playbook_id;
  item_id = e.item_id;
  dry_run = s.run.dry_run;
  max_attempts = budget s.run.frames e;
  finished_at = none;
  variables = child_variables s.run.frames e.item_id;
  log = empty_log;
}

-- `run.phase = phase`, unless the entry has none
abbrev pub enter_phase : Option Phase → Run → Run
enter_phase none run = run
enter_phase (some phase) run = record run { phase = some phase }

abbrev pub insert_child : Session → ℕ → PlanEntry → Session × Option Job
insert_child s position e = (
  record s {
    run = enter_phase e.phase s.run;
    jobs = s.jobs ++ child_at s position e ∷ [];
    fresh = suc s.fresh;
  },
  some (child_at s position e),
)

unfoldable pub queue_entry : Session → ℕ → Option PlanEntry → Session × Option Job
unfolding child_at
queue_entry s position none = (s, none)
queue_entry s position (some e) = insert_child s position e

unfoldable pub queue_child : Session → ℕ → Session × Option Job
unfolding queue_entry
queue_child s position = queue_entry s position (get_elem? s.run.plan position)

-- `if x is not None: column = x`
abbrev pub given {ℓ} : {A : Type ℓ} → Option A → Option A → Option A
given none old = old
given (some x) old = some x

unfoldable pub close_run : Status → Option Outcome → Option Message → Session → Session
close_run status code error s =
    let run = record s.run {
      status = status;
      error_code = given code s.run.error_code;
      error = given error s.run.error;
      finished_at = some s.clock;
    } in
    record s {
      run = run;
      events =
          if run.dry_run
          then s.events
          else s.events
            ++ record { run_id = run.id; status = run.status; error_code = run.error_code } ∷ [];
    }

-- `ORDER BY run_position`, as a stable insertion
unfoldable pub insert_by_position : Job → List Job → List Job
insert_by_position j [] = j ∷ []
insert_by_position j (k ∷ ks) =
    let rest = insert_by_position j ks in
    if leb (position_of j) (position_of k) then j ∷ k ∷ ks else k ∷ rest

unfoldable pub by_position : List Job → List Job
unfolding insert_by_position
by_position [] = []
by_position (j ∷ js) = insert_by_position j (by_position js)

-- `job.run_id == run_id`
abbrev pub belongs : ℕ → Job → Bool
belongs run_id job = elim job.run_id [ none ↦ false | some r ↦ nat_beq r run_id ]

abbrev pub is_child_of : Run → Job → Bool
is_child_of run job = belongs run.id job

unfoldable pub children : Session → List Job
unfolding by_position
children s = by_position (keep_if (is_child_of s.run) s.jobs)

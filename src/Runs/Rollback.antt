-- ===== src/Runs/Rollback.antt =====
-- database_utils/utils/provisioning_runs.py: the rollback builder, `_plan_rollback` to
-- `_finish_rollback`.
use mathlib.Core.List.{reverse}
use models_utils.Prelude.{
  ℕ, Bool, true, false, not, ◌&&◌, Option, none, some, List, [], ◌∷◌, ◌++◌, map, ltb, nat_beq,
  nat_eq, Text, codes, text_eq, contains, length, get_elem?, all, ◌-◌, if◌then◌else◌,
}
use models_utils.Runs.Rows.{
  failed, cancelled, rolled_back, running, Phase, is_configuration, rollback, Outcome,
  rollback_incomplete, StepDef, Definition, StepLabel, PlanEntry, Job, position_of, Device,
  labelled, item, FailedStep, Message, report, text, RollbackState, Run,
}
use models_utils.Runs.Plan.{is_one_of, no_undo_drivers, step_labels, snapshot}
use models_utils.Runs.Logs.{ran_steps, same_option_text}
use models_utils.Runs.Session.{Session, queue_child, close_run, children}

abbrev pub entry_at : Run → Job → Option PlanEntry
entry_at run job = get_elem? run.plan (position_of job)

abbrev pub phase_at : Run → Job → Option Phase
phase_at run job = elim (entry_at run job) [ none ↦ none | some e ↦ e.phase ]

-- (touched, entries, no_rollback)
pub record Undo : Type 0 where
  pub touched : List ℕ
  pub entries : List PlanEntry
  pub no_rollback : List ℕ

-- {s["name"]: s["driver"]}: of steps of one name the last counts.
abbrev pub driver_of : List StepDef → Option Text → Text → Option Text
driver_of [] found w = found
driver_of (s ∷ ss) found w =
    driver_of ss (if same_option_text s.name (some w) then s.driver else found) w

abbrev pub undoes_of : List StepDef → Option Text → Option Text
undoes_of [] w = none
undoes_of (s ∷ ss) w = if same_option_text s.name w then s.undoes else undoes_of ss w

-- `undoes and undoes not in ran`
abbrev pub undoes_nothing : List Text → Option Text → Bool
undoes_nothing ran none = false
undoes_nothing ran (some []) = false
undoes_nothing ran (some (c ∷ w)) = not (contains ran (c ∷ w))

abbrev pub mark_skip : List StepDef → List Text → StepLabel → StepLabel
mark_skip steps ran s =
    if undoes_nothing ran (undoes_of steps s.name) then record s { skip = true } else s

unfoldable pub rollback_steps : List StepDef → List Text → List StepLabel
unfolding step_labels
rollback_steps steps ran = map (mark_skip steps ran) (step_labels steps)

unfoldable pub harmless : List StepDef → List Text → Bool
harmless configuration ran =
    all (λ w. is_one_of no_undo_drivers (driver_of configuration none w)) ran

abbrev pub add_entry : PlanEntry → List Text → List StepLabel → Undo → Undo
add_entry e ran steps u = if all (λ (s : StepLabel). s.skip) steps then u else record u {
  entries =
      u.entries
      ++ record e { probe = false; phase = some rollback; steps = steps; ran_steps = ran } ∷ [];
}

-- With no rollback of its own a device is not undone, which matters if a step needs undoing.
unfoldable pub undo_with : List StepDef → Definition → PlanEntry → List Text → Undo → Undo
unfolding rollback_steps harmless
undo_with [] d e ran t =
    if harmless d.configuration ran
    then t
    else record t { no_rollback = t.no_rollback ++ e.item_id ∷ [] }
undo_with (s ∷ ss) d e ran t = add_entry e ran (rollback_steps (s ∷ ss) ran) t

-- A device that ran a step.
unfoldable pub undo_device : Definition → PlanEntry → List Text → Undo → Undo
unfolding undo_with
undo_device d e ran u =
    let t = record u { touched = u.touched ++ e.item_id ∷ [] } in undo_with d.rollback d e ran t

abbrev pub is_wanted : Option (List ℕ) → ℕ → Bool
is_wanted none i = true
is_wanted (some wanted) i = contains wanted i

unfoldable pub undo_ran : Definition → PlanEntry → List Text → Undo → Undo
unfolding undo_device
undo_ran d e [] u = u
undo_ran d e (w ∷ ws) u = undo_device d e (w ∷ ws) u

unfoldable pub undo_entry : Run → Option (List ℕ) → Job → Option PlanEntry → Undo → Undo
unfolding undo_ran snapshot
undo_entry run items job none u = u
undo_entry run items job (some e) u =
    if is_configuration e.phase && is_wanted items e.item_id
    then undo_ran (snapshot run.frames.definitions e.playbook_id) e (ran_steps job) u
    else u

-- The body of the loop, for one CONFIGURATION child.
unfoldable pub undo_child : Run → Option (List ℕ) → Job → Undo → Undo
unfolding undo_entry
undo_child run items job u = undo_entry run items job (entry_at run job) u

unfoldable pub undo_all : Run → Option (List ℕ) → List Job → Undo → Undo
unfolding undo_child
undo_all run items [] u = u
undo_all run items (job ∷ jobs) u = undo_all run items jobs (undo_child run items job u)

abbrev pub no_undo : Undo
no_undo = record { touched = []; entries = []; no_rollback = [] }

unfoldable pub plan_rollback : Session → Option (List ℕ) → Undo
unfolding undo_all
plan_rollback s items = undo_all s.run items (reverse (children s)) no_undo

-- `sorted(set(a) | set(b))`
abbrev pub insert_sorted : ℕ → List ℕ → List ℕ
insert_sorted i [] = i ∷ []
insert_sorted i (j ∷ js) =
    let rest = insert_sorted i js in
    if nat_beq i j then j ∷ js else if ltb i j then i ∷ j ∷ js else j ∷ rest

unfoldable pub sorted_union : List ℕ → List ℕ → List ℕ
sorted_union [] acc = acc
sorted_union (i ∷ is) acc = sorted_union is (insert_sorted i acc)

abbrev pub rollback_state : Run → RollbackState
rollback_state run = elim run.frames.rollback [
  | some state ↦ state
  | none ↦ record { cause_code = none; cause_error = none; no_rollback = [] }
]

unfoldable pub record_rollback : List PlanEntry → List ℕ → Session → Session
unfolding sorted_union
record_rollback entries no_rollback s =
    let state = rollback_state s.run in
    let known = sorted_union no_rollback (sorted_union state.no_rollback []) in
    record s {
      run = record s.run {
        frames = record s.run.frames { rollback = some (record state { no_rollback = known }) };
        plan = s.run.plan ++ entries;
      };
    }

abbrev pub message : Option Text → Option Message
message none = none
message (some w) = some (text w)

unfoldable pub set_cause : Outcome → Option Text → Session → Session
set_cause code error s = record s {
  run = record s.run {
    frames = record s.run.frames {
      rollback = some (record { cause_code = some code; cause_error = error; no_rollback = [] });
    };
    error_code = some code;
    error = message error;
  };
}

-- `_item_label`
unfoldable pub item_label : List PlanEntry → ℕ → Device
item_label [] i = item i
item_label (e ∷ es) i = if nat_beq e.item_id i then labelled e.device_label else item_label es i

abbrev pub undefined_step : List PlanEntry → ℕ → FailedStep
undefined_step plan i = record {
  device = item_label plan i;
  step = none;
  code = some (codes "NO_ROLLBACK_DEFINED");
  display = none;
}

-- `_rollback_incomplete_text`, before the details are written as JSON
abbrev pub incomplete_text : Run → List FailedStep → Message
incomplete_text run details =
    report (elim (rollback_state run).cause_error [ none ↦ [] | some w ↦ w ]) details

unfoldable pub close_after_rollback_planned :
    List PlanEntry → List ℕ → Session → Session × Option Job
unfolding queue_child close_run item_label
close_after_rollback_planned (e ∷ es) no_rollback s =
    queue_child (record s { run = record s.run { phase = some rollback; status = running } })
      (length s.run.plan - length (e ∷ es))
close_after_rollback_planned [] (i ∷ is) s = (
  close_run failed (some rollback_incomplete)
      (some (incomplete_text s.run (map (undefined_step s.run.plan) (i ∷ is)))) s,
  none,
)
close_after_rollback_planned [] [] s = (close_run rolled_back none none s, none)

unfoldable pub undo_touched : Bool → List ℕ → Undo → Session → Session × Option Job
unfolding record_rollback close_after_rollback_planned
undo_touched was_cancelled [] u s =
    (close_run (if was_cancelled then cancelled else failed) none none s, none)
undo_touched was_cancelled (i ∷ is) u s =
    close_after_rollback_planned u.entries u.no_rollback (record_rollback u.entries u.no_rollback s)

unfoldable pub enter_rollback : Outcome → Option Text → Bool → Session → Session × Option Job
unfolding set_cause plan_rollback undo_touched
enter_rollback code error was_cancelled s =
    let s' = set_cause code error s in
    let u = plan_rollback s' none in undo_touched was_cancelled u.touched u s'

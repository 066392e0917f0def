-- ===== src/Runs/Logs.antt =====
-- database_utils/utils/provisioning_runs.py: what a child's step log tells (`_merge_outputs` to
-- `_failure_text`).
use models_utils.Prelude.{
  ℕ, Bool, true, false, not, ◌&&◌, Option, none, some, List, [], ◌∷◌, ◌++◌, map, nat_beq, nat_eq,
  Text, codes, ◌==◌, text_eq, contains, keep_if, if◌then◌else◌,
}
use models_utils.Runs.Rows.{
  Status, queued, running, pending_inform, pending_manual, succeeded, failed, rolled_back,
  cancelled, StepLabel, PlanEntry, LogStep, LogItem, entry, junk, Output, Job, position_of,
  labelled, FailedStep,
}
use models_utils.Runs.Plan.{is_one_of, or_else, session_probe_step}

abbrev pub is_text : Text → Option Text → Bool
is_text w o = is_one_of (w ∷ []) o

-- `row` with the place of the child, as the run keeps it
abbrev pub placed : PlanEntry → Job → Output → Output
placed e job out = record out {
  item_id = some e.item_id;
  position = position_of job;
  category_key = e.category_key;
}

abbrev pub same_option_text : Option Text → Option Text → Bool
same_option_text none none = true
same_option_text (some a) (some b) = a == b
same_option_text _ _ = false

abbrev pub same_item : Option ℕ → Option ℕ → Bool
same_item none none = true
same_item (some a) (some b) = nat_beq a b
same_item _ _ = false

abbrev pub same_output : Output → Output → Bool
same_output a b = same_item a.item_id b.item_id && same_option_text a.key b.key

-- The loop of `_merge_outputs`: an earlier row of the same item and key goes.
unfoldable pub merge_outputs : List Output → List Output → List Output
merge_outputs [] merged = merged
merge_outputs (row ∷ rows) merged =
    merge_outputs rows (keep_if (λ o. not (same_output o row)) merged ++ row ∷ [])

-- `last.pop(name, None)`, then the entry at the end.
abbrev pub without_name : Text → List (Text × LogStep) → List (Text × LogStep)
without_name w [] = []
without_name w ((v, e) ∷ d) = let rest = without_name w d in if v == w then rest else (v, e) ∷ rest

unfoldable pub last_entries : List LogItem → List (Text × LogStep) → List (Text × LogStep)
last_entries [] last = last
last_entries (junk ∷ es) last = last_entries es last
last_entries (entry e ∷ es) last =
    last_entries es (elim e.name [ none ↦ last | some w ↦ without_name w last ++ (w, e) ∷ [] ])

-- Nothing was sent: a failure before the command stage.
abbrev pub sent_nothing : LogStep → Bool
sent_nothing e =
    is_text (codes "FAILED") e.status && is_one_of (codes "connect" ∷ codes "render" ∷ []) e.stage

abbrev pub counts : Text → LogStep → List Text → Bool
counts w e ran =
    not (w == session_probe_step)
    && (not (contains ran w) && (not (is_text (codes "SKIPPED") e.status) && not (sent_nothing e)))

abbrev pub note_step : List Text → Option Text → LogStep → List Text
note_step ran none e = ran
note_step ran (some w) e = if counts w e ran then ran ++ w ∷ [] else ran

-- The loop of `ran_steps`.
unfoldable pub ran_loop : List LogItem → List Text → List Text
ran_loop [] ran = ran
ran_loop (junk ∷ es) ran = ran_loop es ran
ran_loop (entry e ∷ es) ran = ran_loop es (note_step ran e.name e)

abbrev pub note_interrupted : List Text → Option Text → List Text
note_interrupted ran none = ran
note_interrupted ran (some w) =
    if not (w == session_probe_step) && not (contains ran w) then ran ++ w ∷ [] else ran

unfoldable pub ran_steps : Job → List Text
unfolding ran_loop
ran_steps job = note_interrupted (ran_loop job.log.steps []) job.log.interrupted_step

-- `_label_of`: the label of the first step of that name, else the name.
unfoldable pub label_of : List StepLabel → Option Text → Option Text
label_of [] w = w
label_of (s ∷ ss) w = if same_option_text s.name w then or_else s.label w else label_of ss w

abbrev pub failed_step : PlanEntry → Text × LogStep → FailedStep
failed_step pe (w, e) = record {
  device = labelled pe.device_label;
  step = or_else e.label (label_of pe.steps (some w));
  code = or_else e.code e.detail_code;
  display = e.display;
}

unfoldable pub failed_steps : Job → PlanEntry → List FailedStep
unfolding last_entries label_of
failed_steps job pe =
    map (failed_step pe)
      (keep_if (λ (w, e). is_text (codes "FAILED") e.status) (last_entries job.log.steps []))

-- `status.value`
abbrev pub status_value : Status → Text
status_value queued = codes "QUEUED"
status_value running = codes "RUNNING"
status_value pending_inform = codes "PENDING_INFORM"
status_value pending_manual = codes "PENDING_MANUAL"
status_value succeeded = codes "SUCCEEDED"
status_value failed = codes "FAILED"
status_value rolled_back = codes "ROLLED_BACK"
status_value cancelled = codes "CANCELLED"

abbrev pub last_of {ℓ} : {A : Type ℓ} → List A → Option A
last_of [] = none
last_of (x ∷ []) = some x
last_of (x ∷ y ∷ ys) = last_of (y ∷ ys)

-- How an f-string shows a value that may be None.
abbrev pub shown : Option Text → Text
shown none = codes "None"
shown (some w) = w

-- `code or job.status.value`
abbrev pub or_status : Option Text → Status → Text
or_status code status = shown (or_else code (some (status_value status)))

-- `f['device']` of a failed step is the label of its entry.
abbrev pub describe : Option FailedStep → Job → PlanEntry → Text
describe (some f) job pe =
    pe.device_label
    ++ (codes " · "
        ++ (shown f.step
            ++ (codes ": "
                ++ shown (or_else f.display (or_else f.code (some (status_value job.status)))))))
describe none job pe = pe.device_label ++ (codes ": " ++ or_status job.log.code job.status)

unfoldable pub failure_text : Job → PlanEntry → Text
unfolding failed_steps
failure_text job pe = describe (last_of (failed_steps job pe)) job pe

-- ===== src/Runs/Plan.antt =====
-- database_utils/utils/provisioning_runs.py: the plan of a run (`order_for_purpose` to
-- `_plan_entry`, and the two loops of `create_run`), and `job_steps` of schemas/playbook.py.
-- A definition is a normalized one: `normalize_definition` is not applied again.
use models_utils.Prelude.{
  ℕ, ◌-◌, Bool, true, false, not, ◌&&◌, Option, none, some, List, [], ◌∷◌, ◌++◌, map, leb, nat_beq,
  nat_eq, Text, codes, ◌==◌, text_eq, contains, lookup, any, if◌then◌else◌,
}
use mathlib.Core.List.{reverse}
use models_utils.Expr.Codes.{lower}
use models_utils.Runs.Rows.{
  Phase, preconditions, configuration, verification, rollback, StepDef, Definition, StepLabel,
  PlanEntry,
}

abbrev pub cli_drivers : List Text
cli_drivers = codes "ssh" ∷ codes "telnet" ∷ []

abbrev pub no_undo_drivers : List Text
no_undo_drivers = codes "simulator" ∷ codes "ping" ∷ codes "connection_request" ∷ []

abbrev pub manual_driver : Text
manual_driver = codes "manual"

abbrev pub session_probe_step : Text
session_probe_step = codes "__session__"

abbrev pub top_down_purposes : List Text
top_down_purposes = codes "ACTIVATION" ∷ codes "DEPROVISION" ∷ codes "CPE_SWAP" ∷ []

abbrev pub teardown_purposes : List Text
teardown_purposes = codes "SUSPENSION" ∷ codes "DEPROVISION" ∷ []

-- `x in names` for an x that may be None
abbrev pub is_one_of : List Text → Option Text → Bool
is_one_of ws none = false
is_one_of ws (some w) = contains ws w

-- `value or default` on strings: None and "" are false
abbrev pub or_else : Option Text → Option Text → Option Text
or_else (some (c ∷ s)) d = some (c ∷ s)
or_else _ d = d

-- A `ResolvedNode` with the attributes that a plan reads.
pub record Node : Type 0 where
  pub position : ℕ
  pub item_id : ℕ
  pub device_type_id : Option ℕ
  pub playbook_id : ℕ
  pub playbook_version : Option ℕ
  pub category_key : Option Text
  pub device_type_name : Text
  pub label : Option Text
  pub serial_number : Option Text

unfoldable pub order_for_purpose : List Node → Text → List Node
order_for_purpose steps purpose =
    if contains top_down_purposes purpose then reverse steps else steps

abbrev pub join_label : Text → Option Text → Text
join_label [] none = []
join_label [] (some b) = b
join_label (c ∷ a) (some (d ∷ b)) = (c ∷ a) ++ (codes " · " ++ d ∷ b)
join_label (c ∷ a) _ = c ∷ a

-- " · ".join of the parts that are not empty
unfoldable pub device_label : Node → Text
device_label n = join_label n.device_type_name (or_else n.label n.serial_number)

abbrev pub is_cli : StepDef → Bool
is_cli s = is_one_of cli_drivers s.driver

abbrev pub starts_with_cli : List StepDef → Bool
starts_with_cli [] = false
starts_with_cli (s ∷ ss) = is_cli s

unfoldable pub needs_probe : Definition → Bool → Bool
needs_probe d cpe_not_up_yet =
    if cpe_not_up_yet
    then false
    else if any is_cli (d.configuration ++ d.verification)
    then not (starts_with_cli d.preconditions)
    else false

abbrev pub step_label : StepDef → StepLabel
step_label s = record {
  name = s.name;
  label = or_else s.label s.name;
  manual = is_one_of (manual_driver ∷ []) s.driver;
  skip = false;
}

unfoldable pub step_labels : List StepDef → List StepLabel
step_labels = map step_label

-- The first CLI driver of configuration and verification, else "ssh".
abbrev pub probe_driver : List StepDef → Text
probe_driver [] = codes "ssh"
probe_driver (s ∷ ss) =
    if is_cli s then (elim s.driver [ some w ↦ w | none ↦ codes "ssh" ]) else probe_driver ss

abbrev pub phase_steps : Definition → Phase → List StepDef
phase_steps d preconditions = d.preconditions
phase_steps d configuration = d.configuration
phase_steps d verification = d.verification
phase_steps d rollback = d.rollback

abbrev pub probe_step : Definition → StepDef
probe_step d = record {
  name = some session_probe_step;
  label = some (codes "Conexión con el equipo");
  driver = some (probe_driver (d.configuration ++ d.verification));
  undoes = none;
}

-- `job_steps` of a run child, whose phase is given.
unfoldable pub job_steps : Definition → Phase → Bool → List StepDef
job_steps d preconditions true = probe_step d ∷ d.preconditions
job_steps d phase _ = phase_steps d phase

unfoldable pub plan_entry : Node → Phase → List StepDef → Bool → PlanEntry
unfolding device_label step_labels
plan_entry n phase steps probe = record {
  item_id = n.item_id;
  playbook_id = n.playbook_id;
  playbook_version = n.playbook_version;
  category_key = elim n.category_key [ none ↦ [] | some c ↦ lower c ];
  device_label = device_label n;
  phase = some phase;
  steps = step_labels steps;
  probe = probe;
  ran_steps = [];
}

-- The definition snapshot of a playbook: {} where there is none.
abbrev pub no_definition : Definition
no_definition = record { preconditions = []; configuration = []; verification = []; rollback = [] }

unfoldable pub snapshot : List (ℕ × Definition) → ℕ → Definition
snapshot definitions id = elim (lookup definitions id) [ some d ↦ d | none ↦ no_definition ]

abbrev pub if_steps : Node → Phase → Bool → List StepDef → List PlanEntry
if_steps n phase probe [] = []
if_steps n phase probe (s ∷ ss) = plan_entry n phase (s ∷ ss) probe ∷ []

-- One entry, if the phase has steps on this node.
unfoldable pub entry_for : Phase → Bool → Definition → Node → List PlanEntry
unfolding plan_entry job_steps
entry_for phase probe d n = if_steps n phase probe (job_steps d phase probe)

abbrev pub is_cpe : Node → Bool
is_cpe n = nat_beq n.position 0

unfoldable pub probes : Phase → Definition → Bool → Node → Bool
unfolding needs_probe
probes preconditions d bring_up n = needs_probe d (bring_up && is_cpe n)
probes _ d bring_up n = false

-- The inner loop of `create_run` for one phase.
unfoldable pub plan_phase : List (ℕ × Definition) → Bool → Phase → List Node → List PlanEntry
unfolding entry_for probes snapshot
plan_phase definitions bring_up phase [] = []
plan_phase definitions bring_up phase (n ∷ ns) =
    let d = snapshot definitions n.playbook_id in
    entry_for phase (probes phase d bring_up n) d n ++ plan_phase definitions bring_up phase ns

-- `plan`: phase by phase, and for a dry run the rollback of every device in reverse order.
unfoldable pub build_plan : List (ℕ × Definition) → Text → Bool → List Node → List PlanEntry
unfolding plan_phase
build_plan definitions purpose dry_run ordered =
    let bring_up = not (contains teardown_purposes purpose) in
    plan_phase definitions bring_up preconditions ordered
    ++ (plan_phase definitions bring_up configuration ordered
        ++ (plan_phase definitions bring_up verification ordered
            ++ (if dry_run
                then plan_phase definitions bring_up rollback (reverse ordered)
                else [])))

-- `str.upper()`, as far as it yields ASCII letters.
unfoldable pub upper_char : ℕ → ℕ
upper_char c =
    if leb b'a' c && leb c b'z'
    then c - 32
    else if nat_beq c 0x131
    then b'I'
    else if nat_beq c 0x17f
    then b'S'
    else c

-- `run_idempotency_key`; the service's id comes as its text.
unfoldable pub run_idempotency_key : Text → Text → Bool → Text
unfolding upper_char lower
run_idempotency_key service purpose dry_run =
    (if map upper_char purpose == codes "DEPROVISION"
      then codes "deprovision-" ++ service
      else codes "path-provision-" ++ (service ++ (codes "-" ++ lower purpose)))
    ++ (if dry_run then codes "-dry" else [])

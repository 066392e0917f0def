-- ===== src/Policy/Gates.antt =====
-- database_utils/utils/provisioning_gates.py.
-- The environment's value, and the rows that the session finds, are arguments.
use models_utils.Prelude.{
  ℕ, Bool, false, not, ◌&&◌, Option, none, some, List, [], ◌∷◌, nat_beq, nat_eq, Text, codes,
  text_eq, contains, lookup, is_some, if◌then◌else◌,
}
use models_utils.Expr.Codes.{lower}
use models_utils.Runs.Rows.{Playbook}
use models_utils.Runs.Logs.{same_item}
use models_utils.Runs.Plan.{Node}
use models_utils.Policy.Strings.{strip}

abbrev pub core_connectivity_playbook_names : List Text
core_connectivity_playbook_names =
    codes "core_connectivity_check_ssh"
    ∷ codes "core_connectivity_check_telnet"
    ∷ codes "core_connectivity_check_ssh-nat"
    ∷ codes "core_connectivity_check_telnet-nat"
    ∷ []

abbrev pub system_playbook_names : List Text
system_playbook_names =
    codes "cpe_reboot"
    ∷ codes "cpe_factory_reset"
    ∷ codes "cpe_activate_tr069"
    ∷ codes "cpe_firmware_update"
    ∷ codes "huawei_onu_activate"
    ∷ codes "huawei_onu_plan_change"
    ∷ codes "huawei_onu_deactivate"
    ∷ codes "huawei_onu_reboot"
    ∷ codes "huawei_onu_deprovision"
    ∷ core_connectivity_playbook_names

-- `device_type.provisioning_enabled`
pub record DeviceType : Type 0 where
  pub provisioning_enabled : Bool

pub data Reason : Type 0 where
  kill_switch device_type_disabled : Reason

pub data GateFailure : Type 0 where
  provisioning_disabled : Reason → GateFailure
  dry_run_required : Option ℕ → Option ℕ → GateFailure
  playbook_not_found : GateFailure

-- The value of PROVISIONING_KILL_SWITCH, if it is set.
abbrev pub Environment : Type 0
Environment = Option Text

abbrev pub switch_value : Environment → Text
switch_value none = codes "false"
switch_value (some s) = s

unfoldable pub kill_switch_enabled : Environment → Bool
kill_switch_enabled env =
    contains (codes "1" ∷ codes "true" ∷ codes "yes" ∷ []) (lower (strip (switch_value env)))

-- `device_type is not None and not device_type.provisioning_enabled`
abbrev pub opted_out : Option DeviceType → Bool
opted_out none = false
opted_out (some t) = not t.provisioning_enabled

unfoldable pub enable_gate_reason : Environment → Option DeviceType → Option Reason
unfolding kill_switch_enabled
enable_gate_reason env device_type =
    if kill_switch_enabled env
    then some kill_switch
    else if opted_out device_type
    then some device_type_disabled
    else none

abbrev pub find_playbook : List Playbook → ℕ → Option Playbook
find_playbook [] id = none
find_playbook (p ∷ ps) id = if nat_beq p.id id then some p else find_playbook ps id

unfoldable pub dry_run_gate : Playbook → Option GateFailure
dry_run_gate p =
    if not (contains system_playbook_names p.name)
      && not (same_item p.last_dry_run_version p.version)
    then some (dry_run_required p.version p.last_dry_run_version)
    else none

abbrev pub or_disabled : Option Reason → Option GateFailure → Option GateFailure
or_disabled none next = next
or_disabled (some reason) next = some (provisioning_disabled reason)

unfoldable pub gate_failure : Environment → Playbook → Option DeviceType → Bool → Option GateFailure
unfolding enable_gate_reason dry_run_gate
gate_failure env playbook device_type dry_run =
    if dry_run
    then none
    else or_disabled (enable_gate_reason env device_type) (dry_run_gate playbook)

pub record NodeFailure : Type 0 where
  pub failure : GateFailure
  pub item_id : ℕ
  pub playbook_id : ℕ

abbrev pub device_type_of : List (ℕ × DeviceType) → Option ℕ → Option DeviceType
device_type_of types none = none
device_type_of types (some i) = lookup types i

unfoldable pub node_gate :
    Environment → List (ℕ × DeviceType) → Bool → Node → Option Playbook → Option GateFailure
unfolding gate_failure
node_gate env types dry_run n none = some playbook_not_found
node_gate env types dry_run n (some p) =
    gate_failure env p (device_type_of types n.device_type_id) dry_run

abbrev pub note_failure : Node → Option GateFailure → List NodeFailure → List NodeFailure
note_failure n none rest = rest
note_failure n (some f) rest =
    record { failure = f; item_id = n.item_id; playbook_id = n.playbook_id } ∷ rest

-- The loop over `resolved.steps`.
unfoldable pub node_failures :
    Environment → List Playbook → List (ℕ × DeviceType) → Bool → List Node → List NodeFailure
unfolding node_gate
node_failures env playbooks types dry_run [] = []
node_failures env playbooks types dry_run (n ∷ ns) =
    note_failure n (node_gate env types dry_run n (find_playbook playbooks n.playbook_id))
      (node_failures env playbooks types dry_run ns)

unfoldable pub run_gate_failures :
    Environment → List Playbook → List (ℕ × DeviceType) → List Node → Bool → List NodeFailure
unfolding node_failures
run_gate_failures env playbooks types steps dry_run =
    if dry_run then [] else node_failures env playbooks types dry_run steps

unfoldable pub claim_time_gate_blocked : Environment → Option DeviceType → Bool
unfolding enable_gate_reason
claim_time_gate_blocked env device_type = is_some (enable_gate_reason env device_type)

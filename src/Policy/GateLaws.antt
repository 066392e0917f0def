-- ===== src/Policy/GateLaws.antt =====
-- When a run passes the gates of provisioning_gates.py.
use models_utils.Prelude.{
  ℕ, ◌≡◌, refl, Bool, true, false, not, ◌&&◌, ◌||◌, Option, none, some, List, [], ◌∷◌, nat_eq,
  text_eq, codes, ◌==◌, contains, is_some, all, arith, if◌then◌else◌,
}
use models_utils.Expr.Codes.{lower}
use models_utils.Policy.Strings.{strip}
use models_utils.Runs.Rows.{Playbook}
use models_utils.Runs.Logs.{same_item}
use models_utils.Runs.Plan.{Node}
use models_utils.Policy.Gates.{
  system_playbook_names, DeviceType, GateFailure, Environment, kill_switch_enabled, opted_out,
  find_playbook, or_disabled, NodeFailure, device_type_of, node_gate, note_failure, node_failures,
  run_gate_failures, kill_switch, device_type_disabled, dry_run_required, playbook_not_found,
}

abbrev pub no_failure {ℓ} : {A : Type ℓ} → List A → Bool
no_failure [] = true
no_failure (x ∷ xs) = false

-- The kill switch: PROVISIONING_KILL_SWITCH is set to 1, true or yes, in any case and with any
-- blanks around it.
abbrev pub is_killed : Environment → Bool
is_killed none = false
is_killed (some s) =
    let word = lower (strip s) in word == codes "1" || (word == codes "true" || word == codes "yes")

-- A device type that is there takes part only if its provisioning is enabled.
abbrev pub is_enabled : Option DeviceType → Bool
is_enabled none = true
is_enabled (some t) = t.provisioning_enabled

-- The node may be written to live: its playbook is there and is SaaS-verified or dry-run at its
-- version, its device type is enabled, and the kill switch is off.
abbrev pub may_go_live : Environment → List Playbook → List (ℕ × DeviceType) → Node → Bool
may_go_live env playbooks types n = elim (find_playbook playbooks n.playbook_id) [
  | none ↦ false
  | some p ↦
      not (is_killed env)
      && (is_enabled (device_type_of types n.device_type_id)
          && (contains system_playbook_names p.name || same_item p.last_dry_run_version p.version))
]

kill_switch_lem : (env : Environment) → kill_switch_enabled env ≡ is_killed env
unfolding kill_switch_enabled strip lower
kill_switch_lem none = refl
kill_switch_lem (some s) = ground arith

opted_out_lem : (t : Option DeviceType) → opted_out t ≡ not (is_enabled t)
opted_out_lem none = refl
opted_out_lem (some t) = refl

gate_passes :
    (killed enabled system done : Bool) (f g : GateFailure)
    → let reason =
        if killed
        then some kill_switch
        else if not enabled
        then some device_type_disabled
        else none in
      is_some (or_disabled reason (if not system && not done then some f else none))
      ≡ not (not killed && (enabled && (system || done)))
gate_passes true enabled system done f g = refl
gate_passes false false system done f g = refl
gate_passes false true true done f g = refl
gate_passes false true false true f g = refl
gate_passes false true false false f g = refl

node_gate-may_go_live :
    (env : Environment) (playbooks : List Playbook) (types : List (ℕ × DeviceType)) (n : Node)
    → is_some (node_gate env types false n (find_playbook playbooks n.playbook_id))
      ≡ not (may_go_live env playbooks types n)
unfolding node_gate
node_gate-may_go_live env playbooks types n = by_playbook (find_playbook playbooks n.playbook_id)
  where
    by_playbook :
        (o : Option Playbook)
        → is_some (node_gate env types false n o)
          ≡ not (elim o [
            | none ↦ false
            | some p ↦
                not (is_killed env)
                && (is_enabled (device_type_of types n.device_type_id)
                    && (contains system_playbook_names p.name
                        || same_item p.last_dry_run_version p.version))
          ])
    by_playbook none = refl
    by_playbook (some p) =
        rw (kill_switch_lem env, opted_out_lem (device_type_of types n.device_type_id))
          (gate_passes (is_killed env) (is_enabled (device_type_of types n.device_type_id))
            (contains system_playbook_names p.name) (same_item p.last_dry_run_version p.version)
            (dry_run_required p.version p.last_dry_run_version) playbook_not_found)

no_failure-note :
    (n : Node) (o : Option GateFailure) (rest : List NodeFailure)
    → no_failure (note_failure n o rest) ≡ (not (is_some o) && no_failure rest)
no_failure-note n none rest = refl
no_failure-note n (some f) rest = refl

twice : (a b : Bool) → (not (not a) && b) ≡ (a && b)
twice a b = ground arith

node_failures-may_go_live :
    (env : Environment) (playbooks : List Playbook) (types : List (ℕ × DeviceType)) (ns : List Node)
    → no_failure (node_failures env playbooks types false ns)
      ≡ all (may_go_live env playbooks types) ns
unfolding node_failures
node_failures-may_go_live env playbooks types [] = refl
node_failures-may_go_live env playbooks types (n ∷ ns) =
    let here = node_gate-may_go_live env playbooks types n in
    let rest = node_failures-may_go_live env playbooks types ns in
    rw
      (
        no_failure-note n (node_gate env types false n (find_playbook playbooks n.playbook_id))
            (node_failures env playbooks types false ns),
        here,
        rest,
      )
      (twice (may_go_live env playbooks types n) (all (may_go_live env playbooks types) ns))

-- A run passes the gates exactly when it is a dry run or every configured node may go live: the kill
-- switch is off, its device type is enabled, and its playbook is there and is SaaS-verified or dry-run
-- at its version.
pub run_gate_failures-may_go_live :
    (env : Environment) (playbooks : List Playbook) (types : List (ℕ × DeviceType))
    (steps : List Node) (dry_run : Bool)
    → no_failure (run_gate_failures env playbooks types steps dry_run)
      ≡ (dry_run || all (may_go_live env playbooks types) steps)
unfolding run_gate_failures
run_gate_failures-may_go_live env playbooks types steps true = refl
run_gate_failures-may_go_live env playbooks types steps false =
    node_failures-may_go_live env playbooks types steps

-- ===== src/Resolution/Examples.antt =====
-- Tests of the model of provisioning_resolution.py, and its theorems at concrete inputs.
use models_utils.Prelude.{
  ◌≡◌, refl, ◌↔◌, ℕ, true, false, Option, none, some, List, [], ◌∷◌, Text, codes, map, All,
}
use models_utils.Prelude.Int.{pos, ◌+ℤ◌}
use models_utils.Expr.Codes.{is_secret_name}
use models_utils.Expr.Eval.{null, num, str, coerce_operand, evaluate}
use models_utils.Expr.Block.{entries, Variables}
use models_utils.Resolution.Rows.{Device, PlaybookRow, ClientService, Tables}
use models_utils.Resolution.Outcome.{
  Outcome, done, raised, no_link, malformed, refused, playbook_not_bound, missing_service_params,
}
use models_utils.Resolution.Tokens.{
  has_default_filter, step_tokens, playbook_references_device_variables,
}
use models_utils.Resolution.Nodes.{Node, device_type, item_id_of}
use models_utils.Resolution.Explain.{Explainer}
use models_utils.Resolution.Refusals.{refusals}
use models_utils.Resolution.Ready.{Yields, StepReady}
use models_utils.Resolution.Exact.{refusals-StepReady}
use models_utils.Resolution.Resolve.{ResolvedProvisioning, Step, activation, resolve_provisioning}
use models_utils.Resolution.ResolveLaws.{IsReady, resolve_provisioning-IsReady}

abbrev device : ℕ → Option ℕ → Text → Text → Device
device id parent category serial = record {
  item = record { id = id; company_id = 1; parent_id = parent; network_attached = true };
  id_text = codes "id";
  serial_number = some serial;
  mac_address = none;
  device_type_id = id;
  device_type_name = category;
  category_key = some category;
  category_tier = none;
  is_passive = false;
  mgmt_host = none;
  mgmt_port = none;
  path_role = none;
}

abbrev playbook : ℕ → Text → PlaybookRow
playbook id text = record {
  id = id;
  company_id = 1;
  is_active = true;
  version = 1;
  blob = text;
  texts = text ∷ [];
  computed = entries (
      record {
        key = str (codes "vlan");
        expr = str (codes "service_plan.vlan + 100");
        min = null;
        max = null;
      }
      ∷ []);
}

-- A unit at the client below one root, whose playbooks are given.
abbrev tables : PlaybookRow → PlaybookRow → Tables
tables own above = record {
  devices =
      device 1 (some 2) (codes "ONT") (codes "A1") ∷ device 2 none (codes "olt") (codes "B2") ∷ [];
  overrides = record { owner = 1; purpose = activation; playbook_id = 7 } ∷ [];
  defaults = record { owner = 2; purpose = activation; playbook_id = 8 } ∷ [];
  links = [];
  playbooks = own ∷ above ∷ [];
  swapped = none;
  baseline = none;
}

abbrev service : ClientService
service = record {
  id_text = codes "s";
  company_id = 1;
  cpe_item_id = some 1;
  client = none;
  plan = some (record {
    id_text = codes "p";
    name = none;
    download_mbps = null;
    upload_mbps = null;
    params =
        record { key = codes "vlan"; value = num (pos 10); of_service = false }
        ∷ record { key = codes "user"; value = null; of_service = true }
        ∷ [];
  });
  params = [];
}

abbrev good_tables : Tables
good_tables =
    tables (playbook 7 (codes "{{path.olt.serial}} {{computed.vlan}}"))
      (playbook 8 (codes "{{device.mac | default:\"-\"}} {{device.out_port | default:1}}"))

-- The nodes of the steps, and the errors of a refusal.
abbrev ids_of : Outcome ResolvedProvisioning → List ℕ
ids_of (done r) = map (λ (s : Step). item_id_of s.0) r.steps
ids_of _ = []

resolved_both : ids_of (resolve_provisioning good_tables service activation false) ≡ 1 ∷ 2 ∷ []
unfolding resolve_provisioning is_secret_name coerce_operand evaluate ◌+ℤ◌
resolved_both = refl

port_refused :
    resolve_provisioning
      (tables
        (playbook 7 (codes "{{path.olt.serial}}"))
        (playbook 8 (codes "{{device.out_port}} {{ 1 }}")))
      service
      activation
      false
    ≡ raised (
        refused (
          record { reason = malformed; token = some (codes "{{ 1 }}"); item = some 2 }
          ∷ record { reason = no_link; token = some (codes "device.out_port"); item = some 2 }
          ∷ []))
unfolding resolve_provisioning is_secret_name coerce_operand evaluate ◌+ℤ◌
port_refused = refl

blank_refused :
    resolve_provisioning
      (tables (playbook 7 (codes "{{service_plan.user}}")) (playbook 8 (codes "")))
      service
      activation
      false
    ≡ raised (missing_service_params (codes "service_plan.user" ∷ []))
unfolding resolve_provisioning
blank_refused = refl

unbound_refused :
    resolve_provisioning (record good_tables { defaults = [] }) service activation false
    ≡ raised (playbook_not_bound (2 ∷ []))
unfolding resolve_provisioning
unbound_refused = refl

quoted_default : has_default_filter (codes "a.b | replace:\"|default:\",\"x\"") ≡ false
unfolding has_default_filter
quoted_default = refl

plain_default : has_default_filter (codes "a.b | upper | default : 'x'") ≡ true
unfolding has_default_filter
plain_default = refl

left_over : (step_tokens (codes "{{a}} {{{b" ∷ [])).malformed ≡ codes "{{{b" ∷ []
unfolding step_tokens
left_over = refl

reads_device :
    playbook_references_device_variables (playbook 7 (codes "x {{ cpe.mac | upper }}")) ≡ true
unfolding playbook_references_device_variables
reads_device = refl

reads_none : playbook_references_device_variables (playbook 7 (codes "x {{ service.id }}")) ≡ false
unfolding playbook_references_device_variables
reads_none = refl

resolve_provisioning-IsReady_example :
    Yields
      (IsReady good_tables service activation)
      (resolve_provisioning good_tables service activation false)
resolve_provisioning-IsReady_example =
    resolve_provisioning-IsReady good_tables service activation false

-- The root as the one step of a run, with its explainer.
abbrev root : Node
root = record {
  position = 1;
  device = device 2 none (codes "olt") (codes "B2");
  playbook_id = some 8;
  playbook_source = some device_type;
  out_slot = none;
  out_port = some 4;
  out_port_name = none;
}

abbrev explainer : Explainer
explainer = record { path_nodes = (codes "olt", root) ∷ []; ambiguous_roles = [] }

abbrev steps : List Step
steps = (root, playbook 8 (codes "{{device.out_port}} {{computed.vlan}}")) ∷ []

abbrev shared : Variables
shared = (codes "service_plan.vlan", num (pos 10)) ∷ []

refusals-StepReady_example :
    (refusals none explainer shared steps ≡ done []) ↔ All (StepReady none explainer shared) steps
refusals-StepReady_example = refusals-StepReady none explainer shared steps

steps_accepted : refusals none explainer shared steps ≡ done []
unfolding refusals is_secret_name coerce_operand evaluate ◌+ℤ◌
steps_accepted = refl

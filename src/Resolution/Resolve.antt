-- ===== src/Resolution/Resolve.antt =====
-- database_utils/utils/provisioning_resolution.py: `resolve_provisioning`.
use models_utils.Prelude.{
  ℕ, Bool, true, false, not, ◌&&◌, ◌||◌, Option, none, some, List, [], ◌∷◌, nat_beq, Text, codes,
  ◌==◌, text_eq, map, any, keep_if, is_some, if◌then◌else◌,
}
use models_utils.Expr.Block.{Variables}
use models_utils.Graph.Paths.{Item, PathResult, path, path_too_deep, resolve_path}
use models_utils.Resolution.Rows.{Device, PlaybookRow, Baseline, ClientService, Tables}
use models_utils.Resolution.Outcome.{
  cpe_not_set, path_too_deep, cpe_not_attached, playbook_inactive, playbook_not_bound,
  missing_service_params, refused, Refusal, Outcome, done, raised, ◌>>=◌, ◌>>◌, refuse_if,
}
use models_utils.Resolution.Nodes.{Node, item_id_of, nodes_from, attach_ports, build_device_frame}
use models_utils.Resolution.Shared.{Roles, shared_variables}
use models_utils.Resolution.Tokens.{playbook_references_token, playbook_references_device_variables}
use models_utils.Resolution.Explain.{Explainer}
use models_utils.Resolution.Refusals.{refusals}

-- A step of the run with its playbook, whose version is the node's `playbook_version`.
abbrev pub Step : Type 0
Step = Node × PlaybookRow

-- `ResolvedProvisioning`. The explainer that the refusals had keeps `ambiguous_roles`.
pub record ResolvedProvisioning : Type 0 where
  pub path : List Node
  pub steps : List Step
  pub shared_variables : Variables
  pub device_variables : List (ℕ × Variables)
  pub explainer : Explainer

abbrev pub activation : Text
activation = codes "ACTIVATION"

abbrev pub items_of : Tables → List Item
items_of t = map (λ (d : Device). d.item) t.devices

abbrev pub with_cpe : Option ℕ → Outcome ℕ
with_cpe none = raised cpe_not_set
with_cpe (some i) = done i

-- The path, from the unit at the client to the root.
abbrev pub attached : PathResult → Outcome (List Item)
attached path_too_deep = raised path_too_deep
attached (path []) = raised cpe_not_attached
attached (path (x ∷ xs)) = if x.network_attached then done (x ∷ xs) else raised cpe_not_attached

-- The nodes of a path with its first apart. There is one: every item of a path is a row.
abbrev pub with_first : List Node → Outcome (Node × List Node)
with_first [] = raised cpe_not_attached
with_first (n ∷ ns) = done (n, ns)

abbrev pub is_step : Node → Bool
is_step n = not n.device.is_passive && is_some n.playbook_id

abbrev pub is_unbound : Node → Bool
is_unbound n = not n.device.is_passive && not (is_some n.playbook_id)

abbrev pub find_playbook : List PlaybookRow → ℕ → Option PlaybookRow
find_playbook [] i = none
find_playbook (p ∷ ps) i = if nat_beq p.id i then some p else find_playbook ps i

abbrev pub playbook_of : List PlaybookRow → Option ℕ → Option PlaybookRow
playbook_of ps none = none
playbook_of ps (some i) = find_playbook ps i

abbrev pub usable : ℕ → Option PlaybookRow → Outcome PlaybookRow
usable company_id none = raised playbook_inactive
usable company_id (some p) =
    if p.is_active && nat_beq p.company_id company_id then done p else raised playbook_inactive

-- The test of `inactive` on all steps, each then with its playbook.
unfoldable pub with_playbooks : List PlaybookRow → ℕ → List Node → Outcome (List Step)
with_playbooks ps company_id [] = done []
with_playbooks ps company_id (n ∷ ns) = usable company_id (playbook_of ps n.playbook_id) >>= λ p.
    with_playbooks ps company_id ns >>= λ steps. done ((n, p) ∷ steps)

abbrev pub is_empty {ℓ} : {A : Type ℓ} → List A → Bool
is_empty [] = true
is_empty (x ∷ xs) = false

-- Whether nodes with no playbook are an error.
unfoldable pub is_fatal : Text → List Step → Bool
unfolding playbook_references_device_variables
is_fatal purpose steps =
    purpose == activation || any (λ (s : Step). playbook_references_device_variables s.1) steps

unfoldable pub is_referenced : List Step → Text → Bool
unfolding playbook_references_token
is_referenced steps name = any (λ (s : Step). playbook_references_token s.1 name) steps

abbrev pub baseline_of : Tables → Text → Option Baseline
baseline_of t purpose = if purpose == activation then none else t.baseline

-- The result, when nothing is refused.
abbrev pub accept : ResolvedProvisioning → List Refusal → Outcome ResolvedProvisioning
accept r [] = done r
accept r (e ∷ es) = raised (refused (e ∷ es))

unfoldable pub resolved : List Node → List Step → Explainer → Variables → ResolvedProvisioning
unfolding build_device_frame
resolved nodes steps explainer shared = record {
  path = nodes;
  steps = steps;
  shared_variables = shared;
  device_variables =
      map (λ (s : Step). (item_id_of s.0, build_device_frame s.0 (codes "device"))) steps;
  explainer = explainer;
}

-- The refusals, and the result.
unfoldable pub unless_refused :
    Tables → Text → List Node → List Step → Explainer → Variables → Outcome ResolvedProvisioning
unfolding refusals resolved
unless_refused t purpose nodes steps explainer shared =
    refusals (baseline_of t purpose) explainer shared steps
    >>= accept (resolved nodes steps explainer shared)

-- `if errors: ... if fatal`
abbrev pub lacks_playbook : Text → List Node → List Step → Bool
lacks_playbook purpose nodes steps =
    not (is_empty (keep_if is_unbound nodes)) && is_fatal purpose steps

-- The two checks and the refusals that follow the shared variables.
unfoldable pub settle :
    Tables → Text → List Node → List Step → Roles → List Text → Outcome ResolvedProvisioning
unfolding is_fatal is_referenced unless_refused
settle t purpose nodes steps ((path_nodes, shared), ambiguous) missing =
    let referenced = keep_if (is_referenced steps) missing in
    refuse_if (lacks_playbook purpose nodes steps)
      (playbook_not_bound (map item_id_of (keep_if is_unbound nodes)))
    >> (refuse_if (not (is_empty referenced)) (missing_service_params referenced)
        >> unless_refused t purpose nodes steps
            (record { path_nodes = path_nodes; ambiguous_roles = ambiguous }) shared)

-- From the nodes of the path on.
unfoldable pub resolve_path_nodes :
    Tables → ClientService → Text → Bool → List Node → Outcome ResolvedProvisioning
unfolding with_playbooks shared_variables settle
resolve_path_nodes t service purpose dry_run nodes =
    with_playbooks t.playbooks service.company_id (keep_if is_step nodes) >>= λ steps.
    with_first nodes >>= λ (cpe, above).
    shared_variables t service purpose dry_run cpe above >>= λ (roles, missing).
    settle t purpose nodes steps roles missing

unfoldable pub path_nodes_of : Tables → Text → List Item → List Node
unfolding nodes_from attach_ports
path_nodes_of t purpose items = attach_ports t.links (nodes_from t purpose 0 items)

unfoldable pub resolve_provisioning :
    Tables → ClientService → Text → Bool → Outcome ResolvedProvisioning
unfolding resolve_path path_nodes_of resolve_path_nodes
resolve_provisioning t service purpose dry_run = with_cpe service.cpe_item_id >>= λ cpe_id.
    attached (resolve_path (items_of t) cpe_id service.company_id) >>= λ items.
    resolve_path_nodes t service purpose dry_run (path_nodes_of t purpose items)

-- ===== src/Resolution/ResolveLaws.antt =====
-- `resolve_provisioning` of provisioning_resolution.py: what a run that may start has.
use models_utils.Prelude.{
  ◌≡◌, refl, ℕ, Bool, true, false, not, Option, none, some, List, [], ◌∷◌, Text, codes, ◌==◌, ◌||◌,
  any, text_eq, map, keep_if, All, arith, Bool-cases, inl, inr,
}
use models_utils.Expr.Block.{Variables}
use models_utils.Graph.Paths.{Item, PathResult, path, path_too_deep, resolve_path}
use models_utils.Resolution.Rows.{ClientService, Tables}
use models_utils.Resolution.Outcome.{ResolutionError, Refusal, Outcome, ◌>>◌, refuse_if}
use models_utils.Resolution.Nodes.{Node}
use models_utils.Resolution.Shared.{Roles, shared_variables}
use models_utils.Resolution.Explain.{Explainer}
use models_utils.Resolution.Refusals.{refusals}
use models_utils.Resolution.Tokens.{playbook_references_device_variables}
use models_utils.Resolution.Ready.{Yields, Yields-bind, StepReady, refusals-Yields}
use models_utils.Resolution.Resolve.{
  Step, ResolvedProvisioning, items_of, with_cpe, attached, with_first, is_step, is_unbound,
  with_playbooks, is_fatal, is_referenced, is_empty, baseline_of, accept, resolved, unless_refused,
  lacks_playbook, settle, resolve_path_nodes, path_nodes_of, resolve_provisioning,
}
use models_utils.Resolution.StepLaws.{
  IsUsable, node_of, AreSteps, with_playbooks-Yields, Returns, shared_variables-Returns,
}

-- A node needs no playbook, or has one.
abbrev pub IsBound : Node → Type 0
IsBound n = is_unbound n ≡ false

-- The path of the attached unit, with the ports of its links.
abbrev pub IsPathOf : Tables → ClientService → Text → List Node → Type 0
IsPathOf t service purpose nodes =
    (cpe_id : ℕ) × (x : Item) × (xs : List Item) × (service.cpe_item_id ≡ some cpe_id)
    × (resolve_path (items_of t) cpe_id service.company_id ≡ path (x ∷ xs))
    × (x.network_attached ≡ true)
    × (nodes ≡ path_nodes_of t purpose (x ∷ xs))

-- Every node needs its playbook: in an ACTIVATION, or where a step reads a device variable.
abbrev pub needs_all : Text → List Step → Bool
needs_all purpose steps =
    purpose == codes "ACTIVATION"
    || any (λ (s : Step). playbook_references_device_variables s.1) steps

abbrev pub IsReady : Tables → ClientService → Text → ResolvedProvisioning → Type 0
IsReady t service purpose r =
    IsPathOf t service purpose r.path
    × (map node_of r.steps ≡ keep_if is_step r.path)
    × All (IsUsable t service) r.steps
    × (needs_all purpose r.steps ≡ true → All IsBound r.path)
    × All (StepReady (baseline_of t purpose) r.explainer r.shared_variables) r.steps

refuse_if-Yields {ℓ} :
    {A : Type ℓ} (P : A → Type 0) (b : Bool) (e : ResolutionError) (m : Outcome A)
    → (b ≡ false → Yields P m)
    → Yields P (refuse_if b e >> m)
refuse_if-Yields P true e m h = tt
refuse_if-Yields P false e m h = h refl

unbound-All : (ns : List Node) → is_empty (keep_if is_unbound ns) ≡ true → All IsBound ns
unbound-All [] h = tt
unbound-All (n ∷ ns) h = elim (Bool-cases (is_unbound n)) [
  | inl e ↦ cc
  | inr e ↦ (e, unbound-All ns (rw e at h))
]

accept-Yields :
    (r : ResolvedProvisioning) (P : ResolvedProvisioning → Type 0) (es : List Refusal)
    → (es ≡ [] → P r)
    → Yields P (accept r es)
accept-Yields r P [] h = h refl
accept-Yields r P (e ∷ es) h = tt

not_fatal :
    (purpose : Text) (nodes : List Node) (steps : List Step)
    → lacks_playbook purpose nodes steps ≡ false
    → needs_all purpose steps ≡ true
    → All IsBound nodes
unfolding is_fatal playbook_references_device_variables
not_fatal purpose nodes steps h f = unbound-All nodes (ground (arith, h, f))

unless_refused-Yields :
    (t : Tables) (service : ClientService) (purpose : Text) (nodes : List Node) (steps : List Step)
    (x : Explainer) (shared : Variables)
    → (All (StepReady (baseline_of t purpose) x shared) steps
        → IsReady t service purpose (resolved nodes steps x shared))
    → Yields (IsReady t service purpose) (unless_refused t purpose nodes steps x shared)
unfolding unless_refused
unless_refused-Yields t service purpose nodes steps x shared h =
    Yields-bind (λ es. es ≡ [] → All (StepReady (baseline_of t purpose) x shared) steps)
      (IsReady t service purpose) (refusals (baseline_of t purpose) x shared steps)
      (accept (resolved nodes steps x shared))
      (refusals-Yields (baseline_of t purpose) x shared steps)
      λ es ready.
        accept-Yields (resolved nodes steps x shared) (IsReady t service purpose) es
          λ e. h (ready e)

settle-Yields :
    (t : Tables) (service : ClientService) (purpose : Text) (nodes : List Node) (steps : List Step)
    (roles : Roles) (missing : List Text)
    → IsPathOf t service purpose nodes
    → AreSteps t service (keep_if is_step nodes) steps
    → Yields (IsReady t service purpose) (settle t purpose nodes steps roles missing)
unfolding settle resolved
settle-Yields t service purpose nodes steps ((path_nodes, shared), ambiguous) missing here
      (same, all) =
    let P = IsReady t service purpose in
    refuse_if-Yields P (lacks_playbook purpose nodes steps) _ _ λ bound.
      refuse_if-Yields P (not (is_empty (keep_if (is_referenced steps) missing))) _ _ λ given.
        unless_refused-Yields t service purpose nodes steps _ shared
          λ ready. (here, same, all, not_fatal purpose nodes steps bound, ready)

with_first-Yields : (ns : List Node) → Returns (with_first ns)
with_first-Yields [] = tt
with_first-Yields (n ∷ ns) = tt

resolve_path_nodes-Yields :
    (t : Tables) (service : ClientService) (purpose : Text) (dry_run : Bool) (nodes : List Node)
    → IsPathOf t service purpose nodes
    → Yields (IsReady t service purpose) (resolve_path_nodes t service purpose dry_run nodes)
unfolding resolve_path_nodes
resolve_path_nodes-Yields t service purpose dry_run nodes here =
    Yields-bind {B = ResolvedProvisioning} (AreSteps t service (keep_if is_step nodes))
      (IsReady t service purpose)
      (with_playbooks t.playbooks service.company_id (keep_if is_step nodes)) _
      (with_playbooks-Yields t service (keep_if is_step nodes))
      λ steps found.
        Yields-bind {B = ResolvedProvisioning} _ (IsReady t service purpose) (with_first nodes) _
          (with_first-Yields nodes)
          λ (cpe, above) u.
            Yields-bind {B = ResolvedProvisioning} _ (IsReady t service purpose)
              (shared_variables t service purpose dry_run cpe above) _
              (shared_variables-Returns t service purpose dry_run cpe above)
              λ (roles, missing) u'.
                settle-Yields t service purpose nodes steps roles missing here found

with_cpe-Yields : (o : Option ℕ) → Yields (λ i. o ≡ some i) (with_cpe o)
with_cpe-Yields none = tt
with_cpe-Yields (some i) = refl

abbrev IsAttached : PathResult → List Item → Type 0
IsAttached p items =
    (x : Item) × (xs : List Item) × (p ≡ path (x ∷ xs))
    × (x.network_attached ≡ true)
    × (items ≡ x ∷ xs)

attached-Yields : (p : PathResult) → Yields (IsAttached p) (attached p)
attached-Yields path_too_deep = tt
attached-Yields (path []) = tt
attached-Yields (path (x ∷ xs)) = elim (Bool-cases x.network_attached) [
  | inl e ↦ simp e (x, xs, refl, e, refl)
  | inr e ↦ simp e tt
]

-- Resolution ends with a result or a ResolutionError, never with another exception. A result has the
-- path of the service's attached unit; its steps are the nodes of the path that are not passive and
-- have a playbook, in order; each of their playbooks is the one that is bound, active and of the
-- company; where missing playbooks are fatal, as in an ACTIVATION, every node that is not passive has
-- one; and each step is ready: its computed block gives a value for all it declares with no error, no
-- token is malformed, every token of the resolver's namespaces without a default has a value, and no
-- port fact has drifted from the baseline.
pub resolve_provisioning-IsReady :
    (t : Tables) (service : ClientService) (purpose : Text) (dry_run : Bool)
    → Yields (IsReady t service purpose) (resolve_provisioning t service purpose dry_run)
unfolding resolve_provisioning
resolve_provisioning-IsReady t service purpose dry_run =
    Yields-bind {B = ResolvedProvisioning} _ (IsReady t service purpose)
      (with_cpe service.cpe_item_id) _ (with_cpe-Yields service.cpe_item_id)
      λ cpe_id set.
        let p = resolve_path (items_of t) cpe_id service.company_id in
        Yields-bind {B = ResolvedProvisioning} (IsAttached p) (IsReady t service purpose)
          (attached p) _ (attached-Yields p)
          λ items (x, xs, same, up, whole).
            resolve_path_nodes-Yields t service purpose dry_run (path_nodes_of t purpose items)
              (cpe_id, x, xs, set, same, up, rw whole refl)

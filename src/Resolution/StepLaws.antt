-- ===== src/Resolution/StepLaws.antt =====
-- `resolve_provisioning` of provisioning_resolution.py: its steps and the shared variables.
use models_utils.Prelude.{
  ◌≡◌, refl, ℕ, Bool, true, false, ◌&&◌, Option, none, some, List, [], ◌∷◌, nat_beq, nat_beq_iff,
  Text, ◌==◌, text_eq, map, is_some, lookup, All, Bool-cases, &&-eq-true, inl, inr,
}
use models_utils.Expr.Block.{Variables}
use models_utils.Resolution.Rows.{Device, PlaybookRow, ClientService, Tables}
use models_utils.Resolution.Outcome.{Outcome, done}
use models_utils.Resolution.Nodes.{Node}
use models_utils.Resolution.Shared.{
  Roles, old_unit, old_cpe_frame, holders_of, add_categories, add_role, add_roles, with_roles,
  shared_variables, cpe_swap,
}
use models_utils.Resolution.Ready.{Yields, Yields-bind}
use models_utils.Resolution.Resolve.{Step, playbook_of, usable, with_playbooks}

-- The playbook of a step is the one that is bound, active and of the company.
abbrev pub IsUsable : Tables → ClientService → Step → Type 0
IsUsable t service (n, pb) =
    (playbook_of t.playbooks n.playbook_id ≡ some pb)
    × (pb.is_active ≡ true)
    × (pb.company_id ≡ service.company_id)

abbrev pub node_of : Step → Node
node_of s = s.0

usable-Yields :
    (company_id : ℕ) (o : Option PlaybookRow)
    → Yields
        (λ p. (o ≡ some p) × (p.is_active ≡ true) × (p.company_id ≡ company_id))
        (usable company_id o)
usable-Yields company_id none = tt
usable-Yields company_id (some p) =
    elim (Bool-cases (p.is_active && nat_beq p.company_id company_id)) [
      | inl e ↦
          let (active, own) = &&-eq-true p.is_active (nat_beq p.company_id company_id) e in
          rw e (refl, active, (nat_beq_iff p.company_id company_id).0 own)
      | inr e ↦ rw e tt
    ]

-- The steps of some nodes.
abbrev pub AreSteps : Tables → ClientService → List Node → List Step → Type 0
AreSteps t service ns steps = (map node_of steps ≡ ns) × All (IsUsable t service) steps

pub with_playbooks-Yields :
    (t : Tables) (service : ClientService) (ns : List Node)
    → Yields (AreSteps t service ns) (with_playbooks t.playbooks service.company_id ns)
unfolding with_playbooks
with_playbooks-Yields t service [] = (refl, tt)
with_playbooks-Yields t service (n ∷ ns) =
    Yields-bind _ (AreSteps t service (n ∷ ns))
      (usable service.company_id (playbook_of t.playbooks n.playbook_id)) _
      (usable-Yields service.company_id (playbook_of t.playbooks n.playbook_id))
      λ p found.
        Yields-bind (AreSteps t service ns) _ (with_playbooks t.playbooks service.company_id ns) _
          (with_playbooks-Yields t service ns) λ steps (same, all). (rw same refl, (found, all))

-- Any value, but no exception other than a ResolutionError.
abbrev pub Returns {ℓ} : {A : Type ℓ} → Outcome A → Type 0
Returns m = Yields (λ a. Unit) m

add_roles-Returns : (holders : List (Text × List Node)) (r : Roles) → Returns (add_roles holders r)
unfolding add_roles
add_roles-Returns [] r = tt
add_roles-Returns ((role, ns) ∷ more) r = elim (Bool-cases (is_some (lookup r.0.0 role))) [
  | inl e ↦ rw e tt
  | inr e ↦ rw e (add_roles-Returns more (add_role role ns r))
]

old_unit-Returns :
    (t : Tables) (purpose : Text) (dry_run : Bool) (cpe : Node) (o : Option Device)
    → Returns (old_unit t purpose dry_run cpe o)
old_unit-Returns t purpose dry_run cpe (some d) = tt
old_unit-Returns t purpose true cpe none = tt
old_unit-Returns t purpose false cpe none = tt

old_cpe_frame-Returns :
    (t : Tables) (purpose : Text) (dry_run : Bool) (cpe : Node)
    → Returns (old_cpe_frame t purpose dry_run cpe)
unfolding old_cpe_frame
old_cpe_frame-Returns t purpose dry_run cpe = elim (Bool-cases (purpose == cpe_swap)) [
  | inl e ↦ rw e (old_unit-Returns t purpose dry_run cpe t.swapped)
  | inr e ↦ rw e tt
]

with_roles-Returns :
    (nodes : List Node) (shared : Variables) (missing : List Text)
    → Returns (with_roles nodes shared missing)
unfolding with_roles
with_roles-Returns nodes shared missing =
    let holders = holders_of nodes [] in
    let r : Roles = (add_categories nodes ([], shared), []) in
    Yields-bind {B = Roles × List Text} (λ a. Unit) (λ a. Unit) (add_roles holders r)
      (λ roles. done (roles, missing)) (add_roles-Returns holders r) (λ roles u. tt)

pub shared_variables-Returns :
    (t : Tables) (service : ClientService) (purpose : Text) (dry_run : Bool) (cpe : Node)
    (above : List Node)
    → Returns (shared_variables t service purpose dry_run cpe above)
unfolding shared_variables
shared_variables-Returns t service purpose dry_run cpe above =
    Yields-bind {B = Roles × List Text} (λ a. Unit) (λ a. Unit)
      (old_cpe_frame t purpose dry_run cpe) _ (old_cpe_frame-Returns t purpose dry_run cpe)
      λ old u. with_roles-Returns (cpe ∷ above) _ _

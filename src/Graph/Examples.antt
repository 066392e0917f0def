-- ===== src/Graph/Examples.antt =====
-- A chain of three nodes: an instance of the theorem on network_graph.py, and tests.
use models_utils.Prelude.{ℕ, ◌≡◌, refl, true, Option, none, some, List, [], ◌∷◌, arith}
use models_utils.Graph.Paths.{Item, path, resolve_path, would_create_cycle, descendants}
use models_utils.Graph.Reparent.{under, reparent}
use models_utils.Graph.PathLaws.{resolve_path-reparent}

abbrev node : ℕ → Option ℕ → Item
node i parent = record { id = i; company_id = 1; parent_id = parent; network_attached = true }

abbrev plant : List Item
plant = node 1 none ∷ node 2 (some 1) ∷ node 3 (some 1) ∷ []

resolve_path-reparent_example :
    resolve_path (reparent 3 2 plant) 3 1
    ≡ path (under 3 2 (node 3 (some 1)) ∷ node 2 (some 1) ∷ node 1 none ∷ [])
unfolding would_create_cycle resolve_path
resolve_path-reparent_example =
    resolve_path-reparent plant 3 2 1 (node 3 (some 1)) (node 2 (some 1)) (node 1 none ∷ []) refl
      refl refl (omega arith)

closes_loop : would_create_cycle plant 1 3 1 ≡ true
unfolding would_create_cycle
closes_loop = refl

behind_root : descendants plant 1 1 ≡ node 2 (some 1) ∷ node 3 (some 1) ∷ []
unfolding descendants
behind_root = refl

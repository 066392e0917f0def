-- ===== src/Graph/Paths.antt =====
-- database_utils/utils/network_graph.py, on the table of inventory items. A recursive query is its
-- rows, one depth after the other up to MAX_PATH_DEPTH; the items of the rows stand for the ids
-- that `_ordered_items` looks up again.
use models_utils.Prelude.{
  ℕ, zero, suc, Bool, true, false, ◌&&◌, Option, none, some, List, [], ◌∷◌, ◌++◌, nat_beq, nat_eq,
  ltb, length, any, keep_if, if◌then◌else◌,
}

pub record Item : Type 0 where
  pub id : ℕ
  pub company_id : ℕ
  pub parent_id : Option ℕ
  pub network_attached : Bool

abbrev pub max_path_depth : ℕ
max_path_depth = 32

-- The row of an id, which is a primary key.
abbrev pub find_row : List Item → ℕ → Option Item
find_row [] i = none
find_row (x ∷ xs) i = if nat_beq x.id i then some x else find_row xs i

abbrev pub only : (Item → Bool) → Option Item → Option Item
only p none = none
only p (some x) = if p x then some x else none

abbrev pub of_company : ℕ → Item → Bool
of_company company_id x = nat_beq x.company_id company_id

-- The anchor of the ancestors wants an item that is attached.
abbrev pub is_anchor : ℕ → Item → Bool
is_anchor company_id x = of_company company_id x && x.network_attached

-- The recursive term: the parent's row, in the same company.
abbrev pub row_of : List Item → ℕ → Option ℕ → Option Item
row_of items company_id none = none
row_of items company_id (some p) = only (of_company company_id) (find_row items p)

abbrev pub above : Option Item → (Item → List Item) → List Item
above none f = []
above (some x) f = f x

-- A row and its ancestors, with `f` more depths to go.
unfoldable pub ancestors : List Item → ℕ → ℕ → Item → List Item
ancestors items company_id zero x = x ∷ []
ancestors items company_id (suc f) x =
    x ∷ above (row_of items company_id x.parent_id) (ancestors items company_id f)

-- The rows of `_ancestor_cte`, by depth.
unfoldable pub ancestor_rows : List Item → ℕ → ℕ → List Item
unfolding ancestors
ancestor_rows items company_id item_id =
    above (only (is_anchor company_id) (find_row items item_id))
      (ancestors items company_id max_path_depth)

pub data PathResult : Type 0 where
  path : List Item → PathResult
  path_too_deep : PathResult

unfoldable pub resolve_path : List Item → ℕ → ℕ → PathResult
unfolding ancestor_rows
resolve_path items item_id company_id =
    let rows = ancestor_rows items company_id item_id in
    if ltb max_path_depth (length rows) then path_too_deep else path rows

abbrev pub has_parent : Option ℕ → ℕ → Bool
has_parent none i = false
has_parent (some p) i = nat_beq p i

abbrev pub is_child : ℕ → ℕ → Item → Bool
is_child company_id i x = has_parent x.parent_id i && of_company company_id x

-- The rows one depth below the given ones.
unfoldable pub below : List Item → ℕ → List Item → List Item
below items company_id [] = []
below items company_id (x ∷ xs) =
    keep_if (is_child company_id x.id) items ++ below items company_id xs

-- The rows behind the given ones, with `f` more depths to go.
unfoldable pub behind : List Item → ℕ → ℕ → List Item → List Item
unfolding below
behind items company_id zero level = []
behind items company_id (suc f) level =
    let next = below items company_id level in next ++ behind items company_id f next

-- The order within a depth is that of the table here; the database may give another.
unfoldable pub descendants : List Item → ℕ → ℕ → List Item
unfolding behind
descendants items item_id company_id =
    above (only (of_company company_id) (find_row items item_id))
      λ x. behind items company_id max_path_depth (x ∷ [])

unfoldable pub would_create_cycle : List Item → ℕ → ℕ → ℕ → Bool
unfolding ancestor_rows
would_create_cycle items item_id new_parent_id company_id =
    if nat_beq item_id new_parent_id
    then true
    else any (λ (x : Item). nat_beq x.id item_id) (ancestor_rows items company_id new_parent_id)

unfoldable pub child_count : List Item → ℕ → ℕ → ℕ
child_count items item_id company_id = length (keep_if (is_child company_id item_id) items)

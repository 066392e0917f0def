-- ===== src/Graph/PathLaws.antt =====
-- What `would_create_cycle` of network_graph.py is for: a re-parent that it lets through keeps
-- the path from the item to the root in order.
use models_utils.Prelude.{
  ℕ, ◌<◌, ◌≡◌, refl, sym, ◌∙◌, ap, subst, true, false, some, List, [], ◌∷◌, nat_eq, ltb, length,
  arith, Bool-cases, Option-cases, inl, inr, if◌then◌else◌,
}
use models_utils.Graph.Paths.{
  Item, max_path_depth, find_row, only, of_company, is_anchor, row_of, above, ancestors,
  ancestor_rows, path, path_too_deep, resolve_path, would_create_cycle,
}
use models_utils.Graph.Reparent.{
  under, reparent, moved, has, first_row, under-other, find_row-reparent, row_of-reparent,
  ancestors-reparent, ancestors-shorter, only-some, find_row-id,
}

path_inj : (xs ys : List Item) → path xs ≡ path ys → xs ≡ ys
path_inj xs ys h = cc

deep_no : (ys : List Item) → path_too_deep ≡ path ys → ⊥
deep_no ys h = cc

resolved_rows :
    (items : List Item) (i company_id : ℕ) (ps : List Item)
    → resolve_path items i company_id ≡ path ps
    → ancestor_rows items company_id i ≡ ps
unfolding resolve_path
resolved_rows items i company_id ps h =
    elim (Bool-cases (ltb max_path_depth (length (ancestor_rows items company_id i)))) [
      | inl b ↦ absurd (deep_no ps (rw b at h))
      | inr b ↦ path_inj (ancestor_rows items company_id i) ps (rw b at h)
    ]

-- The path of an item in front of that of its new parent.
new_rows :
    (items : List Item) (i p company_id : ℕ) (x y : Item)
    → only (of_company company_id) (find_row items i) ≡ some x
    → only (is_anchor company_id) (find_row items p) ≡ some y
    → has i (ancestors items company_id max_path_depth y) ≡ false
    → length (ancestors items company_id max_path_depth y) < max_path_depth
    → ancestor_rows (reparent i p items) company_id i
      ≡ under i p x ∷ ancestors items company_id max_path_depth y
unfolding ancestor_rows ancestors
new_rows items i p company_id x y hx hy apart short =
    let (row_x, mine) = only-some (of_company company_id) (find_row items i) x hx in
    let (row_y, anchored) = only-some (is_anchor company_id) (find_row items p) y hy in
    let is_x = find_row-id items i x row_x in
    let x' = record x { parent_id = some p; network_attached = true } in
    let here : under i p x ≡ x' = rw is_x refl in
    let found : find_row (reparent i p items) i ≡ some x' =
      find_row-reparent i p items i ∙ ap (moved i p) row_x ∙ ap some here in
    let anchor : only (is_anchor company_id) (find_row (reparent i p items) i) ≡ some x' =
      ap (only (is_anchor company_id)) found ∙ rw mine refl in
    let of_y : of_company company_id y ≡ true = ground arith in
    let parent : row_of items company_id (some p) ≡ some y =
      ap (only (of_company company_id)) row_y ∙ rw of_y refl in
    let parent' : row_of (reparent i p items) company_id (some p) ≡ some y =
      row_of-reparent company_id i p items (some p)
      ∙ ap (moved i p) parent
      ∙ ap some (under-other i p y (first_row items company_id i max_path_depth y apart)) in
    let shorter = ancestors-shorter items company_id 31 y (omega arith) in
    ap (λ o. above o (ancestors (reparent i p items) company_id max_path_depth)) anchor
    ∙ ap (λ o. x' ∷ above o (ancestors (reparent i p items) company_id 31)) parent'
    ∙ ap (λ rows. x' ∷ rows)
        (ancestors-reparent items company_id i p 31 y (ap (has i) (sym shorter) ∙ apart)
          ∙ sym shorter)
    ∙ ap (λ z. z ∷ ancestors items company_id max_path_depth y) (sym here)

no_rows : (x : Item) (xs : List Item) → [] ≡ x ∷ xs → ⊥
no_rows x xs h = cc

rows_of_path :
    (items : List Item) (p company_id : ℕ) (y : Item) (ys : List Item)
    → ancestor_rows items company_id p ≡ y ∷ ys
    → (z : Item) × (only (is_anchor company_id) (find_row items p) ≡ some z)
      × (ancestors items company_id max_path_depth z ≡ y ∷ ys)
unfolding ancestor_rows
rows_of_path items p company_id y ys h =
    elim (Option-cases (only (is_anchor company_id) (find_row items p))) [
      | inl e ↦ absurd (no_rows y ys (rw e at h))
      | inr (z, e) ↦ (z, e, rw e at h)
    ]

-- Where `would_create_cycle` answers no, the item is one of the company and the new parent has a
-- path of at most 31 nodes, the item put under that parent has the path that starts with it and
-- goes on as the parent's did: the re-parent closes no loop and loses no ancestor.
pub resolve_path-reparent :
    (items : List Item) (i p company_id : ℕ) (x y : Item) (ys : List Item)
    → would_create_cycle items i p company_id ≡ false
    → only (of_company company_id) (find_row items i) ≡ some x
    → resolve_path items p company_id ≡ path (y ∷ ys)
    → length (y ∷ ys) < max_path_depth
    → resolve_path (reparent i p items) i company_id ≡ path (under i p x ∷ y ∷ ys)
unfolding would_create_cycle resolve_path
resolve_path-reparent items i p company_id x y ys free hx hp short =
    let (z, hz, same) =
      rows_of_path items p company_id y ys (resolved_rows items p company_id (y ∷ ys) hp) in
    let rows = resolved_rows items p company_id (y ∷ ys) hp in
    let apart : has i (ancestor_rows items company_id p) ≡ false = ground arith in
    let all_rows =
      new_rows items i p company_id x z hx hz (ap (has i) (same ∙ sym rows) ∙ apart)
        (subst (λ r. length r < max_path_depth) (sym same) short)
      ∙ ap (λ r. under i p x ∷ r) same in
    let fits : ltb max_path_depth (length (under i p x ∷ y ∷ ys)) ≡ false = ground arith in
    ap (λ r. if ltb max_path_depth (length r) then path_too_deep else path r) all_rows
    ∙ ap (λ b. if b then path_too_deep else path (under i p x ∷ y ∷ ys)) fits

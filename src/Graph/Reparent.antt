-- ===== src/Graph/Reparent.antt =====
-- The ancestors of network_graph.py in a table in which one item has been put under a parent.
use models_utils.Prelude.{
  ℕ, zero, suc, ◌≤◌, ◌≡◌, refl, sym, ◌∙◌, ap, Bool, true, false, ◌||◌, Option, none, some, List, [],
  ◌∷◌, map, nat_beq, nat_eq, length, any, arith, Bool-cases, inl, inr, if◌then◌else◌,
}
use models_utils.Graph.Paths.{Item, find_row, only, of_company, row_of, above, ancestors}

-- The item under its new parent.
abbrev pub under : ℕ → ℕ → Item → Item
under i p x = if nat_beq x.id i then record x { parent_id = some p; network_attached = true } else x

-- The table after the item has been put under a parent.
abbrev pub reparent : ℕ → ℕ → List Item → List Item
reparent i p = map (under i p)

abbrev pub moved : ℕ → ℕ → Option Item → Option Item
moved i p none = none
moved i p (some x) = some (under i p x)

id-under : (i p : ℕ) (x : Item) → (under i p x).id ≡ x.id
id-under i p x = elim (Bool-cases (nat_beq x.id i)) [ inl b ↦ rw b refl | inr b ↦ rw b refl ]

company-under :
    (company_id i p : ℕ) (x : Item) → of_company company_id (under i p x) ≡ of_company company_id x
company-under company_id i p x = elim (Bool-cases (nat_beq x.id i)) [
  | inl b ↦ rw b refl
  | inr b ↦ rw b refl
]

pub under-other : (i p : ℕ) (x : Item) → nat_beq x.id i ≡ false → under i p x ≡ x
under-other i p x h = rw h refl

moved-if :
    (i p : ℕ) (b : Bool) (x : Item) (o : Option Item)
    → moved i p (if b then some x else o) ≡ (if b then some (under i p x) else moved i p o)
moved-if i p true x o = refl
moved-if i p false x o = refl

pub find_row-reparent :
    (i p : ℕ) (items : List Item) (j : ℕ)
    → find_row (reparent i p items) j ≡ moved i p (find_row items j)
find_row-reparent i p [] j = refl
find_row-reparent i p (x ∷ xs) j =
    ap (λ k. if nat_beq k j then some (under i p x) else find_row (reparent i p xs) j)
      (id-under i p x)
    ∙ ap (λ o. if nat_beq x.id j then some (under i p x) else o) (find_row-reparent i p xs j)
    ∙ sym (moved-if i p (nat_beq x.id j) x (find_row xs j))

only-moved :
    (company_id i p : ℕ) (o : Option Item)
    → only (of_company company_id) (moved i p o) ≡ moved i p (only (of_company company_id) o)
only-moved company_id i p none = refl
only-moved company_id i p (some x) =
    ap (λ b. if b then some (under i p x) else none) (company-under company_id i p x)
    ∙ sym (moved-if i p (of_company company_id x) x none)

pub row_of-reparent :
    (company_id i p : ℕ) (items : List Item) (o : Option ℕ)
    → row_of (reparent i p items) company_id o ≡ moved i p (row_of items company_id o)
row_of-reparent company_id i p items none = refl
row_of-reparent company_id i p items (some q) =
    ap (only (of_company company_id)) (find_row-reparent i p items q)
    ∙ only-moved company_id i p (find_row items q)

-- One of the rows is the item.
abbrev pub has : ℕ → List Item → Bool
has i = any λ (x : Item). nat_beq x.id i

pub first_row :
    (items : List Item) (company_id i f : ℕ) (x : Item)
    → has i (ancestors items company_id f x) ≡ false
    → nat_beq x.id i ≡ false
unfolding ancestors
first_row items company_id i zero x h = ground arith
first_row items company_id i (suc f) x h = ground arith

above-moved :
    (i p : ℕ) (o : Option Item) (new old : Item → List Item)
    → ((x : Item) → has i (old x) ≡ false → nat_beq x.id i ≡ false)
    → ((x : Item) → has i (old x) ≡ false → new x ≡ old x)
    → has i (above o old) ≡ false
    → above (moved i p o) new ≡ above o old
above-moved i p none new old first same h = refl
above-moved i p (some x) new old first same h = ap new (under-other i p x (first x h)) ∙ same x h

or_false : (a b : Bool) → (a || b) ≡ false → b ≡ false
or_false a b h = ground arith

-- A path without the item is as it was.
pub ancestors-reparent :
    (items : List Item) (company_id i p f : ℕ) (x : Item)
    → has i (ancestors items company_id f x) ≡ false
    → ancestors (reparent i p items) company_id f x ≡ ancestors items company_id f x
unfolding ancestors
ancestors-reparent items company_id i p zero x h = refl
ancestors-reparent items company_id i p (suc f) x h =
    let o = row_of items company_id x.parent_id in
    ap (λ rows. x ∷ rows)
      (ap (λ r. above r (ancestors (reparent i p items) company_id f))
          (row_of-reparent company_id i p items x.parent_id)
        ∙ above-moved i p o (ancestors (reparent i p items) company_id f)
            (ancestors items company_id f) (first_row items company_id i f)
            (ancestors-reparent items company_id i p f)
            (or_false (nat_beq x.id i) (has i (above o (ancestors items company_id f))) h))

above-shorter :
    (o : Option Item) (long short : Item → List Item) (n : ℕ)
    → ((x : Item) → length (long x) ≤ n → long x ≡ short x)
    → length (above o long) ≤ n
    → above o long ≡ above o short
above-shorter none long short n same h = refl
above-shorter (some x) long short n same h = same x h

above-none :
    (o : Option Item) (f : Item → List Item)
    → ((x : Item) → 1 ≤ length (f x))
    → length (above o f) ≤ 0
    → above o f ≡ []
above-none none f h k = refl
above-none (some x) f h k = absurd (let a = h x in omega arith)

-- A path that ends before the depth does not need the last depth.
pub ancestors-shorter :
    (items : List Item) (company_id f : ℕ) (x : Item)
    → length (ancestors items company_id (suc f) x) ≤ suc f
    → ancestors items company_id (suc f) x ≡ ancestors items company_id f x
unfolding ancestors
ancestors-shorter items company_id zero x h =
    ap (λ rows. x ∷ rows)
      (above-none (row_of items company_id x.parent_id) (ancestors items company_id 0)
        (λ y. omega arith) (omega arith))
ancestors-shorter items company_id (suc f) x h =
    ap (λ rows. x ∷ rows)
      (above-shorter (row_of items company_id x.parent_id) (ancestors items company_id (suc f))
        (ancestors items company_id f) (suc f) (ancestors-shorter items company_id f) (omega arith))

pub only-some :
    (q : Item → Bool) (o : Option Item) (x : Item) → only q o ≡ some x → (o ≡ some x) × (q x ≡ true)
only-some q none x h = cc
only-some q (some y) x h = elim (Bool-cases (q y)) [
  | inr b ↦ absurd (no_row (rw b at h))
  | inl b ↦ let same : some y ≡ some x = rw b at h in (same, sym (ap (may q) same) ∙ b)
]
  where
    no_row : none ≡ some x → ⊥
    no_row h = cc

    may : (Item → Bool) → Option Item → Bool
    may r none = false
    may r (some z) = r z

pub find_row-id :
    (items : List Item) (i : ℕ) (x : Item) → find_row items i ≡ some x → nat_beq x.id i ≡ true
find_row-id [] i x h = cc
find_row-id (y ∷ ys) i x h = elim (Bool-cases (nat_beq y.id i)) [
  | inr b ↦ find_row-id ys i x (rw b at h)
  | inl b ↦ let same : some y ≡ some x = rw b at h in sym (ap id_is same) ∙ b
]
  where
    id_is : Option Item → Bool
    id_is none = false
    id_is (some z) = nat_beq z.id i

-- ===== src/Workflow/KahnInvariant.antt =====
-- The invariant of the `while queue` loop of workflow_engine.py.
use models_utils.Prelude.{
  ℕ, ◌+◌, ◌≤◌, ◌≡◌, refl, ◌∙◌, ap, Bool, true, false, not, ◌&&◌, Option, some, List, [], ◌∷◌, ◌++◌,
  nat_beq, nat_beq_iff, nat_eq, contains, lookup, assign, lookup-assign, All, arith, Bool-cases,
  inl, inr, if◌then◌else◌,
}
use models_utils.Prelude.Int.{ℤ, pos}
use models_utils.Workflow.Kahn.{
  Edge, Degrees, or_zero, degree_of, increment, zeros, count_edges, neighbours,
}

-- How often a number occurs in a list.
abbrev pub occurs : ℕ → List ℕ → ℕ
occurs v [] = 0
occurs v (x ∷ xs) = (if nat_beq x v then 1 else 0) + occurs v xs

pub occurs-append : (v : ℕ) (xs : List ℕ) (x : ℕ) → occurs v (xs ++ x ∷ []) ≡ occurs v (x ∷ xs)
occurs-append v [] x = refl
occurs-append v (y ∷ ys) x = ground (arith, occurs-append v ys x)

-- The edges into `v` from a step that has not been processed.
abbrev pub pending : List Edge → List ℕ → ℕ → ℕ
pending [] done v = 0
pending (e ∷ es) done v =
    (if nat_beq e.to_step v && not (contains done e.from_step) then 1 else 0) + pending es done v

or_zero-if :
    (b : Bool) (x : ℤ) (o : Option ℤ)
    → or_zero (if b then some x else o) ≡ (if b then x else or_zero o)
or_zero-if true x o = refl
or_zero-if false x o = refl

pub degree-assign :
    (d : Degrees) (k v : ℕ) (x : ℤ)
    → degree_of (assign d k x) v ≡ (if nat_beq k v then x else degree_of d v)
degree-assign d k v x = ap or_zero (lookup-assign d k v x) ∙ or_zero-if (nat_beq k v) x (lookup d v)

if_same : (b : Bool) (x y : ℤ) → y ≡ x → (if b then x else y) ≡ x
if_same true x y h = refl
if_same false x y h = h

degree-zeros : (ids : List ℕ) (v : ℕ) → degree_of (zeros ids) v ≡ pos 0
degree-zeros [] v = refl
degree-zeros (i ∷ is) v =
    or_zero-if (nat_beq i v) (pos 0) (lookup (zeros is) v)
    ∙ if_same (nat_beq i v) (pos 0) (degree_of (zeros is) v) (degree-zeros is v)

plus_edge :
    (b : Bool) (x y : ℤ) (n m : ℕ)
    → x ≡ pos m
    → y ≡ pos n
    → (b ≡ true → m ≡ n)
    → (if b then increment x else y) ≡ pos ((if b then 1 else 0) + n)
plus_edge true x y n m h e k = ap increment h ∙ ap pos (let same = k refl in omega arith)
plus_edge false x y n m h e k = e ∙ ap pos (omega arith)

degree_of_edge :
    (d : Degrees) (k v : ℕ) (start : ℕ → ℕ)
    → ((w : ℕ) → degree_of d w ≡ pos (start w))
    → degree_of (assign d k (increment (degree_of d k))) v
      ≡ pos ((if nat_beq k v then 1 else 0) + start v)
degree_of_edge d k v start h =
    degree-assign d k v (increment (degree_of d k))
    ∙ plus_edge (nat_beq k v) (degree_of d k) (degree_of d v) (start v) (start k) (h k) (h v)
        (λ b. ap start ((nat_beq_iff k v).0 b))

-- After the loop over the edges a degree is the number of edges into its step.
count_edges-degree :
    (es : List Edge) (d : Degrees) (start : ℕ → ℕ)
    → ((v : ℕ) → degree_of d v ≡ pos (start v))
    → (v : ℕ) → degree_of (count_edges es d) v ≡ pos (pending es [] v + start v)
unfolding count_edges
count_edges-degree [] d start h v = h v ∙ ap pos (omega arith)
count_edges-degree (e ∷ es) d start h v =
    count_edges-degree es (assign d e.to_step (increment (degree_of d e.to_step)))
      (λ w. (if nat_beq e.to_step w then 1 else 0) + start w)
      (λ w. degree_of_edge d e.to_step w start h) v
    ∙ ap pos (ground arith)

pub first_degrees :
    (ids : List ℕ) (es : List Edge) (v : ℕ)
    → degree_of (count_edges es (zeros ids)) v ≡ pos (pending es [] v)
first_degrees ids es v =
    count_edges-degree es (zeros ids) (λ w. 0) (degree-zeros ids) v ∙ ap pos (omega arith)

-- A step moves from the unprocessed ones to the processed ones with its outgoing edges.
pub pending-neighbours :
    (es : List Edge) (done : List ℕ) (u v : ℕ)
    → contains done u ≡ false
    → pending es done v ≡ pending es (u ∷ done) v + occurs v (neighbours es u)
unfolding neighbours
pending-neighbours [] done u v h = refl
pending-neighbours (e ∷ es) done u v h =
    let rest = pending-neighbours es done u v h in
    elim (Bool-cases (nat_beq e.from_step u)) [
      | inr b ↦ rw b (ground arith)
      | inl b ↦
          let fresh : contains done e.from_step ≡ false =
            ap (contains done) ((nat_beq_iff e.from_step u).0 b) ∙ h in
          rw (b, fresh) (ground arith)
    ]

-- What holds in the loop over the neighbours: `p` are the degrees at its end, `seen` counts the
-- processed steps.
pub record Reducing (ids : List ℕ) (p seen : ℕ → ℕ) (vs : List ℕ) (d : Degrees) (q : List ℕ)
    : Type 0 where
  pub counts : (v : ℕ) → degree_of d v ≡ pos (p v + occurs v vs)
  pub once : (v : ℕ) → occurs v q + seen v ≤ 1
  pub free : (v : ℕ) → 1 ≤ occurs v q + seen v → p v + occurs v vs ≡ 0
  pub found : (v : ℕ) → contains ids v ≡ true → p v + occurs v vs ≡ 0 → 1 ≤ occurs v q + seen v
  pub known_next : All (λ v. contains ids v ≡ true) vs
  pub known : All (λ v. contains ids v ≡ true) q

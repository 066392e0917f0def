-- ===== src/Workflow/KahnReduce.antt =====
-- One round of the loop over the neighbours of workflow_engine.py.
use models_utils.Prelude.{
  ℕ, zero, suc, ◌+◌, ◌≡◌, refl, sym, ◌∙◌, ap, subst, Bool, true, false, List, [], ◌∷◌, nat_beq,
  nat_beq_iff, nat_eq, contains, assign, All-append, arith, if◌then◌else◌,
}
use models_utils.Prelude.Int.{ℤ, pos}
use models_utils.Workflow.Kahn.{Degrees, degree_of, decrement, is_zero, enqueue, reduce}
use models_utils.Workflow.KahnInvariant.{occurs, occurs-append, degree-assign, Reducing}

pick :
    (b : Bool) (n m : ℕ) (y : ℤ)
    → (b ≡ true → n ≡ m)
    → (b ≡ false → y ≡ pos m)
    → (if b then pos n else y) ≡ pos m
pick true n m y h k = ap pos (h refl)
pick false n m y h k = k refl

counts_after :
    (ids : List ℕ) (p seen : ℕ → ℕ) (v : ℕ) (vs : List ℕ) (d : Degrees) (q : List ℕ) (n : ℕ)
    → n ≡ p v + occurs v vs
    → Reducing ids p seen (v ∷ vs) d q
    → (w : ℕ) → degree_of (assign d v (pos n)) w ≡ pos (p w + occurs w vs)
counts_after ids p seen v vs d q n e h w =
    degree-assign d v w (pos n)
    ∙ pick (nat_beq v w) n (p w + occurs w vs) (degree_of d w)
        (λ b. e ∙ ap (λ u. p u + occurs u vs) ((nat_beq_iff v w).0 b))
        (λ b. h.counts w ∙ ap pos (ground arith))

reduce_at :
    (ids : List ℕ) (p seen : ℕ → ℕ) (v : ℕ) (vs : List ℕ) (d : Degrees) (q : List ℕ) (n : ℕ)
    → n ≡ p v + occurs v vs
    → Reducing ids p seen (v ∷ vs) d q
    → Reducing ids p seen vs (assign d v (pos n)) (enqueue (is_zero (pos n)) v q)
reduce_at ids p seen v vs d q zero e h = record {
  counts = counts_after ids p seen v vs d q zero e h;
  once = λ w. let a = h.once w in let b = h.free w in ground (arith, occurs-append w q v);
  free = λ w k.
      let a = h.free w in
      let same : nat_beq v w ≡ true → p w + occurs w vs ≡ 0 =
        λ b. ap (λ u. p u + occurs u vs) (sym ((nat_beq_iff v w).0 b)) ∙ sym e in
      ground (arith, occurs-append w q v);
  found = λ w k z. let a = h.found w k in ground (arith, occurs-append w q v);
  known_next = h.known_next.1;
  known = All-append (λ u. contains ids u ≡ true) q (v ∷ []) h.known (h.known_next.0, tt);
}
reduce_at ids p seen v vs d q (suc n) e h = record {
  counts = counts_after ids p seen v vs d q (suc n) e h;
  once = h.once;
  free = λ w k. let a = h.free w k in omega arith;
  found = λ w k z.
      let a = h.found w k in
      let same : nat_beq v w ≡ true → p w + occurs w vs ≡ suc n =
        λ b. ap (λ u. p u + occurs u vs) (sym ((nat_beq_iff v w).0 b)) ∙ sym e in
      ground arith;
  known_next = h.known_next.1;
  known = h.known;
}

pub reduce-Reducing :
    (ids : List ℕ) (p seen : ℕ → ℕ) (vs : List ℕ) (d : Degrees) (q : List ℕ)
    → Reducing ids p seen vs d q
    → let (d', q') = reduce vs d q in Reducing ids p seen [] d' q'
unfolding reduce
reduce-Reducing ids p seen [] d q h = h
reduce-Reducing ids p seen (v ∷ vs) d q h =
    let n = p v + occurs v vs in
    let x = decrement (degree_of d v) in
    let up : degree_of d v ≡ pos (suc n) = h.counts v ∙ ap pos {y = suc n} (ground arith) in
    let down : x ≡ pos n = ap decrement up in
    reduce-Reducing ids p seen vs (assign d v x) (enqueue (is_zero x) v q) (
      subst (λ y. Reducing ids p seen vs (assign d v y) (enqueue (is_zero y) v q)) (sym down)
        (reduce_at ids p seen v vs d q n refl h))

-- ===== src/Expr/Names.antt =====
-- `names` of playbook_expr.py: the walk over a stack, against the occurrences from left to right.
use models_utils.Prelude.{
  ℕ, zero, suc, ◌+◌, ◌≤◌, ◌≡◌, refl, ◌∙◌, ap, true, List, [], ◌∷◌, ◌++◌, append_assoc, arith, Text,
  text_eq, contains, All, All-split, append-nil, subst, sym, Bool-cases, inl, inr, if◌then◌else◌,
}
use models_utils.Expr.Parser.{Tree, int, name, neg, bin, occurrences, walk, nodes, names}

-- Each word once, in the order of the first occurrences.
abbrev pub collect : List Text → List Text → List Text
collect out [] = out
collect out (w ∷ ws) = collect (if contains out w then out else out ++ w ∷ []) ws

abbrev stack_words : List Tree → List Text
stack_words [] = []
stack_words (t ∷ ts) = occurrences t ++ stack_words ts

abbrev stack_nodes : List Tree → ℕ
stack_nodes [] = 0
stack_nodes (t ∷ ts) = nodes t + stack_nodes ts

walk-eq-collect :
    (f : ℕ) (stack : List Tree) (out : List Text)
    → stack_nodes stack ≤ f
    → walk f stack out ≡ collect out (stack_words stack)
unfolding walk
walk-eq-collect zero [] out h = refl
walk-eq-collect zero (int n ∷ stack) out h = absurd (omega arith)
walk-eq-collect zero (name w ∷ stack) out h = absurd (omega arith)
walk-eq-collect zero (neg t ∷ stack) out h = absurd (omega arith)
walk-eq-collect zero (bin o a b ∷ stack) out h = absurd (omega arith)
walk-eq-collect (suc f) [] out h = refl
walk-eq-collect (suc f) (int n ∷ stack) out h = walk-eq-collect f stack out (omega arith)
walk-eq-collect (suc f) (name w ∷ stack) out h = walk-eq-collect f stack _ (omega arith)
walk-eq-collect (suc f) (neg t ∷ stack) out h = walk-eq-collect f (t ∷ stack) out (omega arith)
walk-eq-collect (suc f) (bin o a b ∷ stack) out h =
    walk-eq-collect f (a ∷ b ∷ stack) out (omega arith)
    ∙ ap (collect out) (sym (append_assoc (occurrences a) (occurrences b) (stack_words stack)))

-- `names` lists the names that the tree reads, each once, in the order of first occurrence from
-- left to right.
names-eq-collect : (t : Tree) → names t ≡ collect [] (occurrences t)
unfolding names
names-eq-collect t =
    walk-eq-collect (nodes t) (t ∷ []) [] (omega arith)
    ∙ ap (collect []) (append-nil (occurrences t))

-- A property of a list of words that `collect` keeps, and one of its result that the words have.
module _ (P : Text → Type 0) where
  contains-All : (out : List Text) (w : Text) → contains out w ≡ true → All P out → P w
  contains-All [] w h a = cc
  contains-All (x ∷ xs) w h a = elim (Bool-cases (text_eq.beq w x)) [
    | inl e ↦ subst P (sym ((text_eq.beq_iff w x).0 e)) a.0
    | inr e ↦ contains-All xs w (ground arith) a.1
  ]

  collect-All : (out ws : List Text) → All P (collect out ws) → All P out × All P ws
  collect-All out [] h = (h, tt)
  collect-All out (w ∷ ws) h = elim (Bool-cases (contains out w)) [
    | inl e ↦ let (a, b) = collect-All out ws (rw e at h) in (a, (contains-All out w e a, b))
    | inr e ↦
        let (a, b) = collect-All (out ++ w ∷ []) ws (rw e at h) in
        let (c, d) = All-split P out (w ∷ []) a in (c, (d.0, b))
  ]

  -- What holds of all of `names t` holds of every name that the tree reads.
  pub names-All : (t : Tree) → All P (names t) → All P (occurrences t)
  names-All t h = (collect-All [] (occurrences t) (rw (names-eq-collect t) at h)).1

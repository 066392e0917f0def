-- ===== src/Template/NameLaws.antt =====
-- The scans of names in playbook_template.py: they stop at a bar, and what they return is a name.
use models_utils.Prelude.{
  ℕ, zero, suc, ◌≡◌, refl, Bool, true, false, ◌&&◌, Option, none, some, [], ◌∷◌, ◌++◌, nat_beq,
  Text, arith, Bool-cases, Option-cases, &&-eq-true, inl, inr,
}
use models_utils.Template.Parser.{
  is_lower, is_part, span, starts, inside_name, after_index, index_digits, after_first, var_name,
}
use models_utils.Template.Filters.{digit?}

abbrev pub bar : Text → Text
bar t = b'|' ∷ t

abbrev pub and_rest : Text → Text × Text → Text × Text
and_rest t (xs, r) = (xs, r ++ t)

abbrev and_rest? : Text → Option (Text × Text) → Option (Text × Text)
and_rest? t none = none
and_rest? t (some p) = some (and_rest t p)

pub span-bar :
    (p : ℕ → Bool) (s t : Text) → p b'|' ≡ false → span p (s ++ bar t) ≡ and_rest (bar t) (span p s)
unfolding span
span-bar p [] t h = rw h
span-bar p (c ∷ s) t h = ground (arith, span-bar p s t h)

starts-bar : (s t : Text) → starts is_lower (s ++ bar t) ≡ starts is_lower s
starts-bar [] t = refl
starts-bar (c ∷ s) t = refl

inside_name-bar : (s t : Text) → inside_name (s ++ bar t) ≡ and_rest (bar t) (inside_name s)
unfolding inside_name
inside_name-bar [] t = refl
inside_name-bar (c ∷ s) t = rw (starts-bar s t) (ground (arith, inside_name-bar s t))

after_index-bar : (s t : Text) → after_index (s ++ bar t) ≡ and_rest (bar t) (after_index s)
unfolding after_index
after_index-bar [] t = refl
after_index-bar (c ∷ s) t = rw (starts-bar s t) (ground (arith, inside_name-bar s t))

index_digits-bar :
    (n : ℕ) (b : Bool) (s t : Text)
    → index_digits n b (s ++ bar t) ≡ and_rest? (bar t) (index_digits n b s)
unfolding index_digits
index_digits-bar zero b [] t = refl
index_digits-bar (suc n) b [] t = refl
index_digits-bar zero b (c ∷ s) t = ground arith
index_digits-bar (suc n) b (c ∷ s) t = elim (Bool-cases (nat_beq c b']' && b)) [
  | inl e ↦ rw e
  | inr e ↦ rw e (elim (Option-cases (digit? c)) [
    | inl d ↦ rw d
    | inr (v, d) ↦
        rw (d, index_digits-bar n true s t)
          (elim (Option-cases (index_digits n true s)) [ inl k ↦ rw k | inr (p, k) ↦ rw k ])
  ])
]

after_first-bar : (s t : Text) → after_first (s ++ bar t) ≡ and_rest (bar t) (after_first s)
unfolding after_first
after_first-bar [] t = refl
after_first-bar (c ∷ s) t =
    rw (index_digits-bar 3 false s t) (elim (Option-cases (index_digits 3 false s)) [
      | inl e ↦ rw e (ground (arith, after_index-bar (c ∷ s) t))
      | inr ((index, r), e) ↦ rw e (ground (arith, after_index-bar (c ∷ s) t, after_index-bar r t))
    ])

pub var_name-bar : (s t : Text) → var_name (s ++ bar t) ≡ and_rest? (bar t) (var_name s)
unfolding var_name
var_name-bar [] t = refl
var_name-bar (c ∷ s) t =
    rw (span-bar is_part (c ∷ s) t refl)
      (ground (arith, after_first-bar (span is_part (c ∷ s)).1 t))

-- A scan passes over the whole of what it returned.
span_self : (p : ℕ → Bool) (s : Text) → span p (span p s).0 ≡ ((span p s).0, [])
unfolding span
span_self p [] = refl
span_self p (c ∷ s) = elim (Bool-cases (p c)) [ inl e ↦ rw (e, e, span_self p s) | inr e ↦ rw e ]

starts-inside_name :
    (s : Text) → starts is_lower s ≡ true → starts is_lower (inside_name s).0 ≡ true
unfolding inside_name
starts-inside_name [] h = h
starts-inside_name (c ∷ s) h = ground arith

inside_name_self : (s : Text) → inside_name (inside_name s).0 ≡ ((inside_name s).0, [])
unfolding inside_name
inside_name_self [] = refl
inside_name_self (c ∷ s) =
    let rest = inside_name_self s in
    let first = starts-inside_name s in
    elim (Bool-cases (is_part c)) [
      | inl e ↦ rw (e, e, rest)
      | inr e ↦ elim (Bool-cases (nat_beq c b'.' && starts is_lower s)) [
        | inr k ↦ rw (e, k)
        | inl k ↦
            let (dot, low) = &&-eq-true (nat_beq c b'.') (starts is_lower s) k in
            rw (e, k, e, dot, first low, rest)
      ]
    ]

after_index_self : (s : Text) → after_index (after_index s).0 ≡ ((after_index s).0, [])
unfolding after_index
after_index_self [] = refl
after_index_self (c ∷ s) = elim (Bool-cases (nat_beq c b'.' && starts is_lower s)) [
  | inr k ↦ rw k
  | inl k ↦
      let (dot, low) = &&-eq-true (nat_beq c b'.') (starts is_lower s) k in
      rw (k, dot, starts-inside_name s low, inside_name_self s)
]

index_digits_self :
    (n : ℕ) (b : Bool) (s xs r ys : Text)
    → index_digits n b s ≡ some (xs, r)
    → index_digits n b (xs ++ ys) ≡ some (xs, ys)
unfolding index_digits
index_digits_self n b [] xs r ys h = cc
index_digits_self zero b (c ∷ s) xs r ys h = elim (Bool-cases (nat_beq c b']' && b)) [
  | inl e ↦ let g = rw e at h in let k : xs ≡ c ∷ [] = cc in rw (k, e)
  | inr e ↦ let g = rw e at h in cc
]
index_digits_self (suc n) b (c ∷ s) xs r ys h = elim (Bool-cases (nat_beq c b']' && b)) [
  | inl e ↦ let g = rw e at h in let k : xs ≡ c ∷ [] = cc in rw (k, e)
  | inr e ↦ elim (Option-cases (digit? c)) [
    | inl d ↦ let g = rw (e, d) at h in cc
    | inr (v, d) ↦ elim (Option-cases (index_digits n true s)) [
      | inl k ↦ let g = rw (e, d, k) at h in cc
      | inr ((zs, r'), k) ↦
          let g = rw (e, d, k) at h in
          let same : xs ≡ c ∷ zs = cc in rw (same, e, d, index_digits_self n true s zs r' ys k)
    ]
  ]
]

after_first_self : (s : Text) → after_first (after_first s).0 ≡ ((after_first s).0, [])
unfolding after_first
after_first_self [] = refl
after_first_self (c ∷ s) = elim (Bool-cases (nat_beq c b'[')) [
  | inr e ↦ elim (Bool-cases (nat_beq c b'.' && starts is_lower s)) [
    | inr k ↦ rw (e, k)
    | inl k ↦ let self = after_index_self (c ∷ s) in rw (e, k, e) (rw k at self)
  ]
  | inl e ↦ elim (Option-cases (index_digits 3 false s)) [
    | inl k ↦ rw (e, k)
    | inr ((index, r), k) ↦
        rw (e, k, e, index_digits_self 3 false s index r (after_index r).0 k, after_index_self r)
  ]
]

-- What follows the first segment of a name is no part of that segment.
stops : (s : Text) → span is_part (after_first s).0 ≡ ([], (after_first s).0)
unfolding after_first after_index span
stops [] = refl
stops (c ∷ s) = elim (Bool-cases (nat_beq c b'[')) [
  | inl e ↦ elim (Option-cases (index_digits 3 false s)) [
    | inl k ↦ rw (e, k)
    | inr ((index, r), k) ↦ rw (e, k) (ground arith)
  ]
  | inr e ↦ elim (Bool-cases (nat_beq c b'.' && starts is_lower s)) [
    | inl k ↦ rw (e, k) (ground arith)
    | inr k ↦ rw (e, k)
  ]
]

span-then :
    (p : ℕ → Bool) (s ys : Text)
    → span p ys ≡ ([], ys)
    → span p ((span p s).0 ++ ys) ≡ ((span p s).0, ys)
unfolding span
span-then p [] ys h = h
span-then p (c ∷ s) ys h = elim (Bool-cases (p c)) [
  | inl e ↦ rw (e, e, span-then p s ys h)
  | inr e ↦ rw e h
]

whole_name :
    (c : ℕ) (xs ys : Text)
    → is_lower c ≡ true
    → span is_part (xs ++ ys) ≡ (xs, ys)
    → after_first ys ≡ (ys, [])
    → var_name (c ∷ (xs ++ ys)) ≡ some (c ∷ (xs ++ ys), [])
unfolding var_name
whole_name c xs ys e w a = rw (e, w, a)

-- What `_VAR_NAME` matches is a name: it matches the whole of it.
pub var_name_self : (s x r : Text) → var_name s ≡ some (x, r) → var_name x ≡ some (x, [])
unfolding var_name
var_name_self [] x r h = cc
var_name_self (c ∷ s) x r h = elim (Bool-cases (is_lower c)) [
  | inr e ↦ let g = rw e at h in cc
  | inl e ↦
      let (xs, more) = span is_part s in
      let ys = (after_first more).0 in
      let g = rw e at h in
      let shape : x ≡ c ∷ (xs ++ ys) = cc in
      rw shape (whole_name c xs ys e (span-then is_part s ys (stops more)) (after_first_self more))
]

-- ===== src/Template/MergeLaws.antt =====
-- `merge_captures` of playbook_render.py: what it keeps.
use models_utils.Prelude.{
  ◌≡◌, refl, sym, ◌∙◌, ap, subst, Bool, true, false, not, Option, none, some, List, [], ◌∷◌, ◌++◌,
  append-nil, append_assoc, Text, codes, text_eq, All, map, assign, if◌then◌else◌, take,
  either_branch,
}
use models_utils.Expr.Eval.{str}
use models_utils.Expr.Block.{Variables}
use models_utils.Template.Captures.{
  max_capture_items, gate_items, join_lines, joined, gate_capture_items, split_lines, CaptureSpec,
  Captured, kind_of, takes_all, gate, capture_token, keep, merge_from, merge_captures,
}
use models_utils.Template.KeepLaws.{IsKept, kept_one, kept_of, kept_of-IsKept}
use models_utils.Template.CaptureLaws.{
  IsHarmless, take_again, Passes, gate_capture-Passes, AllPass, gate_items-AllPass,
  split_lines-join_lines,
}

abbrev pub is_nil : Text → Bool
is_nil [] = true
is_nil (c ∷ s) = false

-- A kept value as it comes to the next merge.
abbrev pub captured : Text → Captured
captured s = record { shown = s; truthy = not (is_nil s) }

-- A value kept for a key: each of its lines is harmless where all matches are taken, else the whole.
abbrev pub IsSafe : List CaptureSpec → Text × Text → Type 0
IsSafe specs (key, s) = if takes_all specs key then All IsHarmless (split_lines s) else IsHarmless s

-- A value that the gate gives is safe, and the gate gives it again.
abbrev IsStable : List CaptureSpec → Text → Option Text → Type 0
IsStable specs key none = Unit
IsStable specs key (some s) = IsSafe specs (key, s) × (gate specs key (captured s) ≡ some s)

-- The same of the items where all matches are taken: the lines are harmless, and the items of the
-- joined text pass again.
abbrev AreStable : Option Text → Type 0
AreStable none = Unit
AreStable (some s) =
    All IsHarmless (split_lines s)
    × ((if not (is_nil s) then gate_capture_items (split_lines s) else some []) ≡ some s)

unless_nil :
    (s : Text)
    → gate_capture_items (split_lines s) ≡ some s
    → (if not (is_nil s) then gate_capture_items (split_lines s) else some []) ≡ some s
unless_nil [] h = refl
unless_nil (c ∷ s) h = h

joined-AreStable :
    (ss : List Text)
    → gate_items (take max_capture_items ss) ≡ some ss
    → All IsHarmless ss
    → AreStable (some (join_lines ss))
unfolding gate_capture_items split_lines
joined-AreStable [] e h = ((tt, tt), refl)
joined-AreStable (s ∷ ss) e h =
    let lines = split_lines-join_lines s ss h in
    (
      subst (All IsHarmless) (sym lines) h,
      unless_nil (join_lines (s ∷ ss)) (rw lines (ap joined e)),
    )

cut : (ss ts : List Text) → ts ≡ take max_capture_items ss → take max_capture_items ts ≡ ts
cut ss ts e = subst (λ l. take max_capture_items l ≡ l) (sym e) (take_again max_capture_items ss)

items-AreStable :
    (ss : List Text) (o : Option (List Text))
    → AllPass (take max_capture_items ss) o
    → AreStable (joined o)
items-AreStable ss none h = tt
items-AreStable ss (some ts) (same, again, ok) =
    joined-AreStable ts (ap (λ l. gate_items l) (cut ss ts same) ∙ again) ok

multi-IsStable :
    (specs : List CaptureSpec) (key : Text) (o : Option Text)
    → takes_all specs key ≡ true
    → AreStable o
    → IsStable specs key o
unfolding gate
multi-IsStable specs key none e h = tt
multi-IsStable specs key (some s) e (ok, again) = (rw e ok, rw e again)

single-IsStable :
    (specs : List CaptureSpec) (key s : Text) (o : Option Text)
    → takes_all specs key ≡ false
    → Passes s (kind_of specs key (codes "text")) o
    → IsStable specs key o
unfolding gate
single-IsStable specs key s none e h = tt
single-IsStable specs key s (some t) e (same, again, ok) = (rw e ok, rw e again)

gated-AreStable :
    (v : Captured)
    → AreStable (if v.truthy then gate_capture_items (split_lines v.shown) else some [])
unfolding gate_capture_items
gated-AreStable v =
    either_branch AreStable v.truthy _ _
      (λ e.
        items-AreStable (split_lines v.shown)
          (gate_items (take max_capture_items (split_lines v.shown)))
          (gate_items-AllPass (take max_capture_items (split_lines v.shown))))
      (λ e. joined-AreStable [] refl tt)

gate-IsStable :
    (specs : List CaptureSpec) (key : Text) (v : Captured) → IsStable specs key (gate specs key v)
unfolding gate
gate-IsStable specs key v =
    either_branch (IsStable specs key) (takes_all specs key) _ _
      (λ e. multi-IsStable specs key _ e (gated-AreStable v))
      (λ e.
        single-IsStable specs key v.shown _ e
          (gate_capture-Passes v.shown (kind_of specs key (codes "text"))))

keep-kept :
    (key : Text) (o : Option Text) (r : Variables × List (Text × Text))
    → (keep key o r).1 ≡ r.1 ++ kept_one key o
keep-kept key none r = sym (append-nil r.1)
keep-kept key (some s) r = refl

merge_from-kept :
    (specs : List CaptureSpec) (captures : List (Text × Captured))
    (r : Variables × List (Text × Text))
    → (merge_from specs captures r).1 ≡ r.1 ++ kept_of specs captures
unfolding merge_from
merge_from-kept specs [] r = sym (append-nil r.1)
merge_from-kept specs ((key, v) ∷ more) r =
    let o = gate specs key v in
    merge_from-kept specs more (keep key o r)
    ∙ (ap (λ l. l ++ kept_of specs more) (keep-kept key o r)
        ∙ append_assoc r.1 (kept_one key o) (kept_of specs more))

abbrev pub as_captures : List (Text × Text) → List (Text × Captured)
as_captures kept = map (λ (p : Text × Text). (p.0, captured p.1)) kept

abbrev KeptWell : List CaptureSpec → List (Text × Text) → Type 0
KeptWell specs kept = All (IsSafe specs) kept × (kept_of specs (as_captures kept) ≡ kept)

kept_one-KeptWell :
    (specs : List CaptureSpec) (key : Text) (o : Option Text) (kept : List (Text × Text))
    → IsStable specs key o
    → KeptWell specs kept
    → KeptWell specs (kept_one key o ++ kept)
kept_one-KeptWell specs key none kept h hs = hs
kept_one-KeptWell specs key (some s) kept (safe, again) (safes, agains) =
    ((safe, safes), rw (again, agains) refl)

kept_of-KeptWell :
    (specs : List CaptureSpec) (captures : List (Text × Captured))
    → KeptWell specs (kept_of specs captures)
kept_of-KeptWell specs [] = (tt, refl)
kept_of-KeptWell specs ((key, v) ∷ more) =
    kept_one-KeptWell specs key (gate specs key v) (kept_of specs more) (gate-IsStable specs key v)
      (kept_of-KeptWell specs more)

-- The variables that a merge sets: one for each kept capture, under its token, in the order kept.
abbrev pub provide : Variables → List (Text × Text) → Variables
provide vs [] = vs
provide vs ((key, s) ∷ kept) = provide (assign vs (capture_token key) (str s)) kept

keep-provide :
    (key : Text) (o : Option Text) (r : Variables × List (Text × Text))
    → (keep key o r).0 ≡ provide r.0 (kept_one key o)
keep-provide key none r = refl
keep-provide key (some s) r = refl

provide-append :
    (vs : Variables) (key : Text) (o : Option Text) (kept : List (Text × Text))
    → provide vs (kept_one key o ++ kept) ≡ provide (provide vs (kept_one key o)) kept
provide-append vs key none kept = refl
provide-append vs key (some s) kept = refl

merge_from-provide :
    (specs : List CaptureSpec) (captures : List (Text × Captured))
    (r : Variables × List (Text × Text))
    → (merge_from specs captures r).0 ≡ provide r.0 (kept_of specs captures)
unfolding merge_from
merge_from-provide specs [] r = refl
merge_from-provide specs ((key, v) ∷ more) r =
    let o = gate specs key v in
    merge_from-provide specs more (keep key o r)
    ∙ (ap (λ vs. provide vs (kept_of specs more)) (keep-provide key o r)
        ∙ sym (provide-append r.0 key o (kept_of specs more)))

-- A merge keeps only safe captures, whatever the earlier ones were: no character of `harmful`, the
-- blanks of ASCII and its punctuation other than "_.:/+-", is in one, nor in a line of one that takes
-- all matches. It keeps each capture of one match, no number, that is at most 128 printable
-- characters of ASCII without one of `harmful`. The only variables it sets are the tokens of the
-- captures it keeps, each to the kept text. What it keeps passes a later merge unchanged and whole,
-- with any variables.
pub merge_captures-IsSafe :
    (resolved resolved' : Variables) (captures : List (Text × Captured)) (specs : List CaptureSpec)
    → let kept = (merge_captures resolved captures specs).1 in
      All (IsSafe specs) kept
      × ((merge_captures resolved captures specs).0 ≡ provide resolved kept)
      × All (IsKept specs kept) captures
      × ((merge_captures resolved' (as_captures kept) specs).1 ≡ kept)
unfolding merge_captures
merge_captures-IsSafe resolved resolved' captures specs =
    let e : (merge_captures resolved captures specs).1 ≡ kept_of specs captures =
      merge_from-kept specs captures (resolved, []) in
    let (safe, again) = kept_of-KeptWell specs captures in
    (
      subst (All (IsSafe specs)) (sym e) safe,
      merge_from-provide specs captures (resolved, []) ∙ ap (λ l. provide resolved l) (sym e),
      subst (λ l. All (IsKept specs l) captures) (sym e) (kept_of-IsKept specs captures),
      merge_from-kept specs (as_captures (merge_captures resolved captures specs).1) (resolved', [])
          ∙ subst (λ l. kept_of specs (as_captures l) ≡ l) (sym e) again,
    )

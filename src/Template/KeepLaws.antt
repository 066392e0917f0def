-- ===== src/Template/KeepLaws.antt =====
-- `merge_captures` of playbook_render.py: which captures it has to keep.
use models_utils.Prelude.{
  ◌≡◌, ◌⊎◌, inl, inr, refl, Bool, true, false, not, ◌&&◌, Option, none, some, List, [], ◌∷◌, ◌++◌,
  Text, text_eq, codes, ◌==◌, All, Bool-cases, &&-eq-true,
}
use models_utils.Template.Captures.{CaptureSpec, Captured, kind_of, takes_all, gate}
use models_utils.Template.CaptureLaws.{is_short_plain, gate_capture-is_short_plain}

-- A capture of one match, no number, of at most 128 printable and harmless characters of ASCII.
abbrev pub must_keep : List CaptureSpec → Text × Captured → Bool
must_keep specs (key, v) =
    not (takes_all specs key)
    && (not (kind_of specs key (codes "text") == codes "number") && is_short_plain v.shown)

abbrev pub Among : Text × Text → List (Text × Text) → Type 0
Among x [] = ⊥
Among x (y ∷ ys) = (y ≡ x) ⊎ Among x ys

-- A capture that must be kept is among those kept, with its text.
abbrev pub IsKept : List CaptureSpec → List (Text × Text) → Text × Captured → Type 0
IsKept specs kept (key, v) = (must_keep specs (key, v) ≡ false) ⊎ Among (key, v.shown) kept

-- What a merge keeps of one capture, and of all.
abbrev pub kept_one : Text → Option Text → List (Text × Text)
kept_one key none = []
kept_one key (some s) = (key, s) ∷ []

abbrev pub kept_of : List CaptureSpec → List (Text × Captured) → List (Text × Text)
kept_of specs [] = []
kept_of specs ((key, v) ∷ more) = kept_one key (gate specs key v) ++ kept_of specs more

of_not : (b : Bool) → not b ≡ true → b ≡ false
of_not true h = cc
of_not false h = refl

gate-must_keep :
    (specs : List CaptureSpec) (key : Text) (v : Captured)
    → must_keep specs (key, v) ≡ true
    → gate specs key v ≡ some v.shown
unfolding gate
gate-must_keep specs key v h =
    let (single, rest) = &&-eq-true (not (takes_all specs key)) _ h in
    let (other, plain) =
      &&-eq-true (not (kind_of specs key (codes "text") == codes "number")) _ rest in
    rw (of_not _ single) (
      gate_capture-is_short_plain v.shown (kind_of specs key (codes "text")) (of_not _ other) plain)

behind :
    (x : Text × Text) (key : Text) (o : Option Text) (kept : List (Text × Text))
    → Among x kept
    → Among x (kept_one key o ++ kept)
behind x key none kept h = h
behind x key (some s) kept h = inr h

grown :
    (specs : List CaptureSpec) (key : Text) (o : Option Text) (kept : List (Text × Text))
    (captures : List (Text × Captured))
    → All (IsKept specs kept) captures
    → All (IsKept specs (kept_one key o ++ kept)) captures
grown specs key o kept [] h = tt
grown specs key o kept ((k, v) ∷ more) (inl a, h) = (inl a, grown specs key o kept more h)
grown specs key o kept ((k, v) ∷ more) (inr a, h) =
    (inr (behind (k, v.shown) key o kept a), grown specs key o kept more h)

pub kept_of-IsKept :
    (specs : List CaptureSpec) (captures : List (Text × Captured))
    → All (IsKept specs (kept_of specs captures)) captures
kept_of-IsKept specs [] = tt
kept_of-IsKept specs ((key, v) ∷ more) = (
  elim (Bool-cases (must_keep specs (key, v))) [
    | inl a ↦ inr (rw (gate-must_keep specs key v a) (inl refl))
    | inr a ↦ inl a
  ],
  grown specs key (gate specs key v) (kept_of specs more) more (kept_of-IsKept specs more),
)

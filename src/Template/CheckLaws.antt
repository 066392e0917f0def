-- ===== src/Template/CheckLaws.antt =====
-- What the check at save time, `find_template_errors`, tells about `render_string` in
-- playbook_template.py, and that `find_variables` finds all that a rendering reads.
use models_utils.Prelude.{
  ◌≡◌, ◌≢◌, refl, true, ◌||◌, Option, none, some, List, [], ◌∷◌, ◌++◌, Text, ◌==◌, text_eq,
  text_beq_iff, contains, All, append-eq-nil, arith, Bool-cases, inl, inr, any,
}
use models_utils.Template.Errors.{Filter, Result, ok, raised, type_error, out_of_fuel}
use models_utils.Template.Filters.{Casing}
use models_utils.Template.Parser.{Expr, parse_body}
use models_utils.Template.Ensures.{Ensures, returns, raises}
use models_utils.Template.WellFormed.{IsCall, IsWellFormed, parse_body-IsWellFormed}
use models_utils.Template.FilterLaws.{is_runtime, Runs, IsSome, chain-IsSome}
use models_utils.Template.RenderLaws.{Yields, PieceYields, render_pieces-Yields, once-Yields}
use models_utils.Template.Render.{
  Piece, char, token, pieces, Problem, missing, broken, once, same_problem, add_name, names_once,
  name_of, piece_names, find_variables, error_of, piece_errors, find_template_errors, chain, Values,
  Rendered, replaced, substitute, render_pieces, render_string,
}

-- A match with the error of a filter.
abbrev pub IsRuntime : Problem → Type 0
IsRuntime (missing name) = ⊥
IsRuntime (broken body e) = is_runtime e ≡ true

abbrev pub ArePresent : Values → List Text → Type 0
ArePresent values names = (n : Text) → contains names n ≡ true → values n ≢ none

replaced-IsRuntime :
    (body name : Text) (r : Result (Option Text))
    → Runs IsSome r
    → Yields IsRuntime (replaced body name r)
replaced-IsRuntime body name (ok (some v)) h = tt
replaced-IsRuntime body name (ok none) h = absurd h
replaced-IsRuntime body name (raised e) h = (h, tt)
replaced-IsRuntime body name type_error h = h
replaced-IsRuntime body name out_of_fuel h = h

text_beq_refl : (n : Text) → (n == n) ≡ true
text_beq_refl n = (text_beq_iff n n).1 refl

chain-present :
    (c : Casing) (fs : List (Filter × List Text)) (v : Option Text)
    → v ≢ none
    → All IsCall fs
    → Runs IsSome (chain c fs v)
chain-present c fs none h w = absurd (h refl)
chain-present c fs (some s) h w = chain-IsSome c fs s w

substitute-IsRuntime :
    (c : Casing) (values : Values) (body : Text) {r : Result Expr}
    → Ensures IsWellFormed r
    → error_of body r ≡ []
    → ArePresent values (name_of r)
    → Yields IsRuntime (substitute c values body r)
unfolding substitute
substitute-IsRuntime c values body (returns {a = e} w) h present =
    replaced-IsRuntime body e.name (chain c e.filters (values e.name)) (
      chain-present c e.filters (values e.name) (present e.name (rw (text_beq_refl e.name)))
        w.calls)
substitute-IsRuntime c values body (raises {e}) h present = rw h tt

contains-append :
    (ms ns : List Text) (n : Text) → contains (ms ++ ns) n ≡ (contains ms n || contains ns n)
contains-append [] ns n = refl
contains-append (m ∷ ms) ns n = ground (arith, contains-append ms ns n)

pieces-IsRuntime :
    (c : Casing) (values : Values) (ps : List Piece)
    → piece_errors ps ≡ []
    → ArePresent values (piece_names ps)
    → All (PieceYields IsRuntime c values) ps
unfolding piece_errors piece_names
pieces-IsRuntime c values [] h present = tt
pieces-IsRuntime c values (char x ∷ ps) h present = (tt, pieces-IsRuntime c values ps h present)
pieces-IsRuntime c values (token body ∷ ps) h present =
    let own = name_of (parse_body body) in
    let (here, later) = append-eq-nil (error_of body (parse_body body)) (piece_errors ps) h in
    (
      substitute-IsRuntime c values body (parse_body-IsWellFormed body) here
          (λ n k. present n (rw (contains-append own (piece_names ps) n, k))),
      pieces-IsRuntime c values ps later
          (λ n k. present n (rw (contains-append own (piece_names ps) n, k) (ground arith))),
    )

-- Once a problem is told, it stays.
once-ne-nil : (p : Problem) (seen ps : List Problem) → once (p ∷ seen) ps ≢ []
unfolding once
once-ne-nil p seen [] h = cc
once-ne-nil p seen (q ∷ ps) h = elim (Bool-cases (any (same_problem q) (p ∷ seen))) [
  | inl e ↦ once-ne-nil p seen ps (rw e at h)
  | inr e ↦ once-ne-nil p (seen ++ q ∷ []) ps (rw e at h)
]

once-eq-nil : (ps : List Problem) → once [] ps ≡ [] → ps ≡ []
unfolding once
once-eq-nil [] h = refl
once-eq-nil (p ∷ ps) h = absurd (once-ne-nil p [] ps h)

contains_add :
    (seen : List Text) (m n : Text) → contains seen n ≡ true → contains (add_name seen m) n ≡ true
contains_add seen m n h = elim (Bool-cases (contains seen m)) [
  | inl e ↦ rw e h
  | inr e ↦ rw (e, contains-append seen (m ∷ []) n, h)
]

contains_added :
    (seen : List Text) (m n : Text) → (n == m) ≡ true → contains (add_name seen m) n ≡ true
contains_added seen m n h = elim (Bool-cases (contains seen m)) [
  | inl e ↦ rw (e, (text_beq_iff n m).0 h) e
  | inr e ↦ rw (e, contains-append seen (m ∷ []) n, h) (ground arith)
]

names_once-seen :
    (seen ns : List Text) (n : Text)
    → contains seen n ≡ true
    → contains (names_once seen ns) n ≡ true
unfolding names_once
names_once-seen seen [] n h = h
names_once-seen seen (m ∷ ns) n h = names_once-seen (add_name seen m) ns n (contains_add seen m n h)

names_once-found :
    (seen ns : List Text) (n : Text) → contains ns n ≡ true → contains (names_once seen ns) n ≡ true
unfolding names_once
names_once-found seen [] n h = cc
names_once-found seen (m ∷ ns) n h = elim (Bool-cases (n == m)) [
  | inl e ↦ names_once-seen (add_name seen m) ns n (contains_added seen m n e)
  | inr e ↦ names_once-found (add_name seen m) ns n (rw e at h)
]

-- Where `find_template_errors` finds nothing in a template and each of its variables has a value,
-- rendering returns, and every problem that it tells is the error of a filter on its value or
-- arguments: no variable is missing, and no match with a bar fails to parse.
pub render_string-IsRuntime :
    (c : Casing) (template : Text) (values : Values)
    → find_template_errors template ≡ []
    → ArePresent values (find_variables template)
    → (r : Rendered) × (render_string c template values ≡ ok r) × All IsRuntime r.1
unfolding render_string find_template_errors find_variables
render_string-IsRuntime c template values h present =
    let ps = pieces 0 template in
    once-Yields IsRuntime (render_pieces c values ps) (
      render_pieces-Yields IsRuntime c values ps (
        pieces-IsRuntime c values ps (once-eq-nil (piece_errors ps) h)
          λ n k. present n (names_once-found [] (piece_names ps) n k)))

-- Two assignments of values to names that agree on some names.
abbrev pub Agree : Values → Values → List Text → Type 0
Agree v w names = (n : Text) → contains names n ≡ true → v n ≡ w n

substitute-Agree :
    (c : Casing) (v w : Values) (body : Text) (r : Result Expr)
    → Agree v w (name_of r)
    → substitute c v body r ≡ substitute c w body r
unfolding substitute
substitute-Agree c v w body (ok e) h = rw (h e.name (rw (text_beq_refl e.name)))
substitute-Agree c v w body (raised e) h = refl
substitute-Agree c v w body type_error h = refl
substitute-Agree c v w body out_of_fuel h = refl

render_pieces-Agree :
    (c : Casing) (v w : Values) (ps : List Piece)
    → Agree v w (piece_names ps)
    → render_pieces c v ps ≡ render_pieces c w ps
unfolding render_pieces piece_names
render_pieces-Agree c v w [] h = refl
render_pieces-Agree c v w (char x ∷ ps) h = rw (render_pieces-Agree c v w ps h)
render_pieces-Agree c v w (token body ∷ ps) h =
    let own = name_of (parse_body body) in
    rw (
      substitute-Agree c v w body (parse_body body)
          (λ n k. h n (rw (contains-append own (piece_names ps) n, k))),
      render_pieces-Agree c v w ps
          (λ n k. h n (rw (contains-append own (piece_names ps) n, k) (ground arith))),
    )

-- Rendering reads no variable that `find_variables` does not find: where two assignments agree on
-- the names that it finds in a template, the template renders to the same text and problems.
pub render_string-Agree :
    (c : Casing) (template : Text) (v w : Values)
    → Agree v w (find_variables template)
    → render_string c template v ≡ render_string c template w
unfolding render_string find_variables
render_string-Agree c template v w h =
    let ps = pieces 0 template in
    rw (render_pieces-Agree c v w ps λ n k. h n (names_once-found [] (piece_names ps) n k))

-- ===== src/Template/RenderLaws.antt =====
-- What `render_string` of playbook_template.py promises.
use models_utils.Prelude.{
  ◌≡◌, refl, Bool, true, false, Option, none, some, List, [], ◌∷◌, ◌++◌, Text, text_eq, All,
  All-append, if◌then◌else◌, any,
}
use models_utils.Template.Errors.{Result, ok, raised, type_error, out_of_fuel, ◌>>=◌}
use models_utils.Template.Filters.{Casing}
use models_utils.Template.Parser.{Expr, parse_body}
use models_utils.Template.Ensures.{Ensures, returns, raises}
use models_utils.Template.WellFormed.{IsWellFormed, parse_body-IsWellFormed}
use models_utils.Template.FilterLaws.{Runs, chain-Runs}
use models_utils.Template.Render.{
  Piece, char, token, pieces, Problem, add_problem, once, same_problem, error_of, chain, Values,
  Rendered, replaced, substitute, join_rendered, render_pieces, render_string,
}

-- The result is there, and its problems have the property.
abbrev pub Yields : (Problem → Type 0) → Result Rendered → Type 0
Yields P (ok r) = All P r.1
Yields P _ = ⊥

module _ (P : Problem → Type 0) where
  once-All : (seen ps : List Problem) → All P seen → All P ps → All P (once seen ps)
  unfolding once
  once-All seen [] h k = h
  once-All seen (p ∷ ps) h (k, ks) =
      once-All (add_problem seen p) ps (add (any (same_problem p) seen)) ks
    where
      add : (b : Bool) → All P (if b then seen else seen ++ p ∷ [])
      add true = h
      add false = All-append P seen (p ∷ []) h (k, tt)

  Yields-join :
      (r s : Result Rendered)
      → Yields P r
      → Yields P s
      → Yields P (r >>= λ x. s >>= λ y. ok (join_rendered x y))
  Yields-join (ok r) (ok s) h k = All-append P r.1 s.1 h k
  Yields-join (ok r) (raised e) h k = absurd k
  Yields-join (ok r) type_error h k = absurd k
  Yields-join (ok r) out_of_fuel h k = absurd k
  Yields-join (raised e) s h k = absurd h
  Yields-join type_error s h k = absurd h
  Yields-join out_of_fuel s h k = absurd h

  abbrev pub PieceYields : Casing → Values → Piece → Type 0
  PieceYields c values (char x) = Unit
  PieceYields c values (token body) = Yields P (substitute c values body (parse_body body))

  -- It is enough that each token's substitution yields such problems.
  pub render_pieces-Yields :
      (c : Casing) (values : Values) (ps : List Piece)
      → All (PieceYields c values) ps
      → Yields P (render_pieces c values ps)
  unfolding render_pieces
  render_pieces-Yields c values [] h = tt
  render_pieces-Yields c values (char x ∷ ps) (h, hs) =
      Yields-join (ok (x ∷ [], [])) (render_pieces c values ps) tt
        (render_pieces-Yields c values ps hs)
  render_pieces-Yields c values (token body ∷ ps) (h, hs) =
      Yields-join (substitute c values body (parse_body body)) (render_pieces c values ps) h
        (render_pieces-Yields c values ps hs)

  -- The result of `render_string`, from that of its pieces.
  pub once-Yields :
      (r : Result Rendered)
      → Yields P r
      → (x : Rendered) × ((r >>= λ y. ok (y.0, once [] y.1)) ≡ ok x) × All P x.1
  once-Yields (ok r) h = ((r.0, once [] r.1), refl, once-All [] r.1 tt h)
  once-Yields (raised e) h = absurd h
  once-Yields type_error h = absurd h
  once-Yields out_of_fuel h = absurd h

abbrev Anything : Problem → Type 0
Anything p = Unit

Anything-All : (ps : List Problem) → All Anything ps
Anything-All [] = tt
Anything-All (p ∷ ps) = (tt, Anything-All ps)

replaced-Yields :
    (body name : Text) (r : Result (Option Text))
    → Runs (λ v. Unit) r
    → Yields Anything (replaced body name r)
replaced-Yields body name (ok (some v)) h = tt
replaced-Yields body name (ok none) h = (tt, tt)
replaced-Yields body name (raised e) h = (tt, tt)
replaced-Yields body name type_error h = h
replaced-Yields body name out_of_fuel h = h

substitute-Yields :
    (c : Casing) (values : Values) (body : Text) {r : Result Expr}
    → Ensures IsWellFormed r
    → Yields Anything (substitute c values body r)
unfolding substitute
substitute-Yields c values body (returns {a = e} w) =
    replaced-Yields body e.name (chain c e.filters (values e.name))
      (chain-Runs c e.filters (values e.name) w.calls)
substitute-Yields c values body (raises {e}) = Anything-All (error_of body (raised e))

pieces-Yields :
    (c : Casing) (values : Values) (ps : List Piece) → All (PieceYields Anything c values) ps
pieces-Yields c values [] = tt
pieces-Yields c values (char x ∷ ps) = (tt, pieces-Yields c values ps)
pieces-Yields c values (token body ∷ ps) =
    (substitute-Yields c values body (parse_body-IsWellFormed body), pieces-Yields c values ps)

-- `render_string` returns for every template and all variables: no exception leaves it.
pub render_string-returns :
    (c : Casing) (template : Text) (values : Values)
    → (r : Rendered) × (render_string c template values ≡ ok r)
unfolding render_string
render_string-returns c template values =
    let (r, e, h) = once-Yields Anything (render_pieces c values (pieces 0 template)) (
      render_pieces-Yields Anything c values (pieces 0 template)
        (pieces-Yields c values (pieces 0 template))) in
    (r, e)

-- ===== src/Resolution/Explain.antt =====
-- database_utils/utils/provisioning_resolution.py: `_Explainer` and `_port_fact_drift`.
use models_utils.Prelude.{
  ℕ, Bool, true, false, not, ◌&&◌, ◌||◌, Option, none, some, List, [], ◌∷◌, ltb, nat_beq, Text,
  codes, ◌==◌, text_eq, contains, lookup, is_some, if◌then◌else◌,
}
use models_utils.Prelude.Int.{ℤ, pos, negsuc}
use models_utils.Expr.Eval.{Value, null, num, str}
use models_utils.Expr.Lexer.{split_dots}
use models_utils.Expr.Block.{Variables, variable}
use models_utils.Resolution.Rows.{Baseline}
use models_utils.Resolution.Outcome.{
  Reason, role_ambiguous, not_on_path, missing_value, no_slot, no_link, path_changed, Refusal,
}
use models_utils.Resolution.Nodes.{Node, item_id_of}
use models_utils.Resolution.Tokens.{namespace_of}

abbrev pub port_attributes : List Text
port_attributes = codes "out_slot" ∷ codes "out_port" ∷ codes "out_port_name" ∷ []

-- `parts[-1]`
abbrev pub last_of : List Text → Text
last_of [] = []
last_of (p ∷ []) = p
last_of (p ∷ q ∷ ps) = last_of (q ∷ ps)

-- `_is_port_token`
unfoldable pub is_port_token : Text → Bool
unfolding split_dots namespace_of
is_port_token name =
    contains port_attributes (last_of (split_dots name))
    && (namespace_of name == codes "device" || namespace_of name == codes "path")

-- What `_Explainer` keeps: the nodes by path segment, and the roles of more than one node.
pub record Explainer : Type 0 where
  pub path_nodes : List (Text × Node)
  pub ambiguous_roles : List Text

abbrev pub of_token : Reason → Text → Refusal
of_token reason name = record { reason = reason; token = some name; item = none }

-- The end of `_Explainer.__call__`, with the node that the token is about.
abbrev pub explain_node : Text → Text → Option Node → Refusal
explain_node name attr none = of_token missing_value name
explain_node name attr (some n) =
    if ltb 0 n.position && contains port_attributes attr
    then record {
      reason = if is_some n.out_port then no_slot else no_link;
      token = some name;
      item = some (item_id_of n);
    }
    else of_token missing_value name

abbrev pub explain_path : Explainer → Text → Text → Text → Refusal
explain_path x name segment attr =
    if contains x.ambiguous_roles segment
    then of_token role_ambiguous name
    else elim (lookup x.path_nodes segment) [
      | none ↦ of_token not_on_path name
      | some n ↦ explain_node name attr (some n)
    ]

abbrev pub explain_parts : Explainer → Node → Text → List Text → Refusal
explain_parts x step name (p ∷ a ∷ []) =
    explain_node name a (if p == codes "device" then some step else none)
explain_parts x step name (p ∷ segment ∷ a ∷ []) =
    if p == codes "path" then explain_path x name segment a else of_token missing_value name
explain_parts x step name _ = of_token missing_value name

-- `_Explainer.__call__`
unfoldable pub explain : Explainer → Node → Text → Refusal
unfolding split_dots
explain x step name = explain_parts x step name (split_dots name)

abbrev pub same_int : ℤ → ℤ → Bool
same_int (pos a) (pos b) = nat_beq a b
same_int (negsuc a) (negsuc b) = nat_beq a b
same_int _ _ = false

-- `==`, for the values that a frame has
unfoldable pub same_value : Value → Value → Bool
same_value null null = true
same_value (num a) (num b) = same_int a b
same_value (str a) (str b) = a == b
same_value _ _ = false

abbrev pub or_nothing : Option Variables → Variables
or_nothing none = []
or_nothing (some v) = v

abbrev pub device_frame_of : List (ℕ × Variables) → ℕ → Variables
device_frame_of [] i = []
device_frame_of ((j, v) ∷ more) i = if nat_beq j i then v else device_frame_of more i

-- The second part of a name, of which a port token has two at least.
abbrev pub second_of : List Text → Text
second_of (p ∷ q ∷ ps) = q
second_of _ = []

-- The frame that a port token had at the baseline, and the item that the error names.
abbrev pub baseline_frame : Baseline → Explainer → Node → Text → Variables × Option ℕ
baseline_frame b x step name =
    if namespace_of name == codes "device"
    then (device_frame_of b.device (item_id_of step), some (item_id_of step))
    else (
      b.shared,
      elim (lookup x.path_nodes (second_of (split_dots name))) [
        | none ↦ none
        | some n ↦ some (item_id_of n)
      ],
    )

abbrev pub is_null : Value → Bool
is_null null = true
is_null _ = false

-- `was is not None and was != now`
unfoldable pub has_drifted : Value → Value → Bool
unfolding same_value
has_drifted was now = not (is_null was) && not (same_value was now)

-- `_port_fact_drift`
unfoldable pub port_fact_drift : Baseline → Explainer → Node → List Text → Variables → List Refusal
unfolding is_port_token split_dots namespace_of has_drifted
port_fact_drift b x step [] vars = []
port_fact_drift b x step (name ∷ names) vars =
    let (frame, owner) = baseline_frame b x step name in
    let more = port_fact_drift b x step names vars in
    if is_port_token name && has_drifted (variable frame name) (variable vars name)
    then record { reason = path_changed; token = some name; item = owner } ∷ more
    else more

-- ===== src/Resolution/Shared.antt =====
-- database_utils/utils/provisioning_resolution.py: the shared variables of `resolve_provisioning`.
use models_utils.Prelude.{
  Bool, true, false, not, ◌&&◌, ◌||◌, Option, none, some, List, [], ◌∷◌, ◌++◌, nat_beq, length,
  Text, codes, ◌==◌, text_eq, lookup, assign, is_some, if◌then◌else◌,
}
use models_utils.Expr.Codes.{lower}
use models_utils.Expr.Eval.{Value, null, str}
use models_utils.Expr.Lexer.{is_segment}
use models_utils.Expr.Block.{Variables}
use models_utils.Policy.Strings.{strip}
use models_utils.Resolution.Rows.{Device, Client, Param, ServicePlan, ClientService, Tables}
use models_utils.Resolution.Outcome.{
  Outcome, done, raised, old_cpe_not_set, role_shadows_category, ◌>>=◌,
}
use models_utils.Resolution.Nodes.{
  Node, node_from_item, build_device_frame, category_of, or_empty, dotted, update,
}

-- A `$` matches before a newline at the end, too.
abbrev pub drop_newline : Text → Text
drop_newline [] = []
drop_newline (c ∷ s) =
    let rest = drop_newline s in if nat_beq c b'\n' && nat_beq (length s) 0 then [] else c ∷ rest

-- `_REFERENCEABLE_KEY.match`
unfoldable pub is_referenceable : Text → Bool
is_referenceable key = is_segment (drop_newline key)

-- `shared[token] = value` for the custom fields, unless the token is there; a key that no token can
-- name is passed over.
unfoldable pub add_custom : List (Text × Value) → Variables → Variables
unfolding is_referenceable
add_custom [] shared = shared
add_custom ((key, value) ∷ more) shared =
    let token = dotted (codes "client") key in
    add_custom more (
      if not (is_referenceable key) || is_some (lookup shared token)
      then shared
      else assign shared token value)

unfoldable pub add_client : Option Client → Variables → Variables
unfolding add_custom
add_client none shared = shared
add_client (some c) shared = add_custom c.custom (
    update shared (
      (codes "client.id", str c.id_text)
      ∷ (codes "client.name", str (or_empty c.name))
      ∷ (codes "client.code", str (or_empty c.code))
      ∷ (codes "client.email", str (or_empty c.email))
      ∷ (codes "client.phone", str (or_empty c.phone))
      ∷ (codes "client.address", str (or_empty c.address))
      ∷ []))

-- `_is_blank`
unfoldable pub is_blank : Value → Bool
unfolding strip
is_blank null = true
is_blank (str s) = strip s == []
is_blank _ = false

-- `values.get(key)`, where a later row of the service wins
abbrev pub value_in : List (Text × Value) → Text → Value
value_in params key = elim (lookup (update [] params) key) [ none ↦ null | some v ↦ v ]

abbrev pub or_null : Bool → Value → Value → Value
or_null of_service own value = if of_service then own else value

-- The loop over the plan's parameters; the second part are the tokens without a value.
unfoldable pub add_params :
    List (Text × Value) → List Param → Variables × List Text → Variables × List Text
unfolding is_blank
add_params params [] r = r
add_params params (p ∷ ps) (shared, missing) =
    let value = or_null p.of_service (value_in params p.key) p.value in
    let token = dotted (codes "service_plan") p.key in
    add_params params ps (
      if p.of_service && is_blank value
      then (shared, missing ++ token ∷ [])
      else (assign shared token value, missing))

abbrev pub unless_null : Text → Value → Variables → Variables
unless_null token null shared = shared
unless_null token v shared = assign shared token v

unfoldable pub add_plan :
    List (Text × Value) → Option ServicePlan → Variables → Variables × List Text
unfolding add_params
add_plan params none shared = (shared, [])
add_plan params (some plan) shared = add_params params plan.params (
  unless_null (codes "service_plan.upload_mbps") plan.upload_mbps (
      unless_null (codes "service_plan.download_mbps") plan.download_mbps (
        assign (assign shared (codes "service_plan.id") (str plan.id_text))
          (codes "service_plan.name") (str (or_empty plan.name)))),
  [],
)

abbrev pub cpe_swap : Text
cpe_swap = codes "CPE_SWAP"

abbrev pub old_unit : Tables → Text → Bool → Node → Option Device → Outcome Variables
old_unit t purpose dry_run cpe (some d) =
    done (build_device_frame (node_from_item t purpose 0 d) (codes "old_cpe"))
old_unit t purpose dry_run cpe none =
    if dry_run then done (build_device_frame cpe (codes "old_cpe")) else raised old_cpe_not_set

-- `old_cpe.*`
unfoldable pub old_cpe_frame : Tables → Text → Bool → Node → Outcome Variables
unfolding build_device_frame node_from_item
old_cpe_frame t purpose dry_run cpe =
    if purpose == cpe_swap then old_unit t purpose dry_run cpe t.swapped else done []

-- `path_nodes`, from a path segment to its node, and the shared variables.
abbrev pub Framing : Type 0
Framing = List (Text × Node) × Variables

abbrev pub path_frame : Text → Node → Framing → Framing
path_frame key n (nodes, shared) =
    (assign nodes key n, update shared (build_device_frame n (dotted (codes "path") key)))

-- The loop over the categories: the first node of each is the nearest.
unfoldable pub add_categories : List Node → Framing → Framing
unfolding build_device_frame lower is_referenceable
add_categories [] r = r
add_categories (n ∷ ns) r =
    let key = category_of n in
    add_categories ns
      (if is_some (lookup r.0 key) || not (is_referenceable key) then r else path_frame key n r)

-- (path_role or "").strip().lower()
unfoldable pub role_of : Node → Text
unfolding strip lower
role_of n = lower (strip (or_empty n.device.path_role))

abbrev pub add_holder : List (Text × List Node) → Text → Node → List (Text × List Node)
add_holder holders role n =
    assign holders role (elim (lookup holders role) [ none ↦ n ∷ [] | some ns ↦ ns ++ n ∷ [] ])

unfoldable pub holders_of : List Node → List (Text × List Node) → List (Text × List Node)
unfolding role_of is_referenceable
holders_of [] holders = holders
holders_of (n ∷ ns) holders =
    holders_of ns
      (if is_referenceable (role_of n) then add_holder holders (role_of n) n else holders)

-- The shared variables with the frames, and the roles of more than one node.
abbrev pub Roles : Type 0
Roles = Framing × List Text

-- One role with its holders, of which there is at least one.
abbrev pub add_role : Text → List Node → Roles → Roles
add_role role (n ∷ []) (r, ambiguous) = (path_frame role n r, ambiguous)
add_role role _ (r, ambiguous) = (r, ambiguous ++ role ∷ [])

unfoldable pub add_roles : List (Text × List Node) → Roles → Outcome Roles
unfolding build_device_frame
add_roles [] r = done r
add_roles ((role, ns) ∷ more) r =
    if is_some (lookup r.0.0 role)
    then raised (role_shadows_category role)
    else add_roles more (add_role role ns r)

-- The categories and the roles of a path.
unfoldable pub with_roles : List Node → Variables → List Text → Outcome (Roles × List Text)
unfolding add_categories holders_of add_roles
with_roles nodes shared missing =
    add_roles (holders_of nodes []) (add_categories nodes ([], shared), []) >>= λ roles.
    done (roles, missing)

-- All of it, on a path with its first node apart; the second part are the missing parameters.
unfoldable pub shared_variables :
    Tables → ClientService → Text → Bool → Node → List Node → Outcome (Roles × List Text)
unfolding add_client add_plan old_cpe_frame with_roles build_device_frame
shared_variables t service purpose dry_run cpe above =
    let start = (codes "service.id", str service.id_text) ∷ [] in
    let (planned, missing) =
      add_plan service.params service.plan (add_client service.client start) in
    old_cpe_frame t purpose dry_run cpe >>= λ old.
    with_roles (cpe ∷ above) (update (update planned (build_device_frame cpe (codes "cpe"))) old)
      missing

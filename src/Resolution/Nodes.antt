-- ===== src/Resolution/Nodes.antt =====
-- database_utils/utils/provisioning_resolution.py: `resolve_playbook_for`, `_node_from_item`,
-- `_attach_ports` and `build_device_frame`.
use models_utils.Prelude.{
  ℕ, suc, ◌&&◌, Option, none, some, List, [], ◌∷◌, ◌++◌, nat_beq, nat_eq, Text, codes, ◌==◌,
  text_eq, lookup, assign, if◌then◌else◌,
}
use models_utils.Prelude.Int.{pos}
use models_utils.Expr.Codes.{lower}
use models_utils.Expr.Eval.{num, str}
use models_utils.Expr.Block.{Variables}
use models_utils.Graph.Paths.{Item}
use models_utils.Resolution.Rows.{Device, Binding, Link, Tables}

pub data Source : Type 0 where
  node device_type : Source

-- `ResolvedNode`
pub record Node : Type 0 where
  pub position : ℕ
  pub device : Device
  pub playbook_id : Option ℕ
  pub playbook_source : Option Source
  pub out_slot : Option ℕ
  pub out_port : Option ℕ
  pub out_port_name : Option Text

abbrev pub item_id_of : Node → ℕ
item_id_of n = n.device.item.id

unfoldable pub bound_to : List Binding → ℕ → Text → Option ℕ
bound_to [] owner purpose = none
bound_to (b ∷ bs) owner purpose =
    if nat_beq b.owner owner && b.purpose == purpose
    then some b.playbook_id
    else bound_to bs owner purpose

abbrev pub or_default : Option ℕ → Option ℕ × Option Source
or_default none = (none, none)
or_default (some p) = (some p, some device_type)

abbrev pub or_else_default : Option ℕ → Option ℕ → Option ℕ × Option Source
or_else_default none default = or_default default
or_else_default (some p) default = (some p, some node)

unfoldable pub resolve_playbook_for : Tables → Device → Text → Option ℕ × Option Source
unfolding bound_to
resolve_playbook_for t d purpose =
    or_else_default (bound_to t.overrides d.item.id purpose)
      (bound_to t.defaults d.device_type_id purpose)

unfoldable pub node_from_item : Tables → Text → ℕ → Device → Node
unfolding resolve_playbook_for
node_from_item t purpose position d =
    let (playbook_id, source) =
      if d.is_passive then (none, none) else resolve_playbook_for t d purpose in
    record {
      position = position;
      device = d;
      playbook_id = playbook_id;
      playbook_source = source;
      out_slot = none;
      out_port = none;
      out_port_name = none;
    }

abbrev pub find_device : List Device → ℕ → Option Device
find_device [] i = none
find_device (d ∷ ds) i = if nat_beq d.item.id i then some d else find_device ds i

-- `enumerate(path_items)`; each item is a row of the table.
unfoldable pub nodes_from : Tables → Text → ℕ → List Item → List Node
unfolding node_from_item
nodes_from t purpose position [] = []
nodes_from t purpose position (x ∷ xs) =
    let rest = nodes_from t purpose (suc position) xs in
    elim (find_device t.devices x.id) [
      | none ↦ rest
      | some d ↦ node_from_item t purpose position d ∷ rest
    ]

-- `{row.down_item_id: row for row in rows}`
abbrev pub by_down : List Link → List (ℕ × Link) → List (ℕ × Link)
by_down [] d = d
by_down (l ∷ ls) d = by_down ls (assign d l.down_item_id l)

abbrev pub with_port : Option Link → Node → Node
with_port none n = n
with_port (some l) n =
    if nat_beq l.up_item_id n.device.item.id
    then record n { out_slot = l.slot; out_port = l.number; out_port_name = l.name }
    else n

-- The pairs of `zip(path, path[1:])`.
unfoldable pub attach_above : List (ℕ × Link) → ℕ → List Node → List Node
attach_above links below [] = []
attach_above links below (n ∷ ns) =
    with_port (lookup links below) n ∷ attach_above links (item_id_of n) ns

unfoldable pub attach_ports : List Link → List Node → List Node
unfolding attach_above
attach_ports links [] = []
attach_ports links (n ∷ ns) = n ∷ attach_above (by_down links []) (item_id_of n) ns

-- `value or ""`
abbrev pub or_empty : Option Text → Text
or_empty none = []
or_empty (some s) = s

-- f"{prefix}.{attr}"
abbrev pub dotted : Text → Text → Text
dotted prefix attr = prefix ++ codes "." ++ attr

abbrev pub known_number : Text → Option ℕ → Variables
known_number key none = []
known_number key (some n) = (key, num (pos n)) ∷ []

abbrev pub known_text : Text → Option Text → Variables
known_text key none = []
known_text key (some s) = (key, str s) ∷ []

-- (category_key or "").lower()
abbrev pub category_of : Node → Text
category_of n = lower (or_empty n.device.category_key)

unfoldable pub build_device_frame : Node → Text → Variables
unfolding lower
build_device_frame n prefix =
    (dotted prefix (codes "item_id"), str n.device.id_text)
    ∷ (dotted prefix (codes "serial"), str (or_empty n.device.serial_number))
    ∷ (dotted prefix (codes "mac"), str (or_empty n.device.mac_address))
    ∷ (dotted prefix (codes "type"), str n.device.device_type_name)
    ∷ (dotted prefix (codes "category"), str (category_of n))
    ∷ (dotted prefix (codes "category_tier"), str (or_empty n.device.category_tier))
    ∷ (dotted prefix (codes "mgmt_host"), str (or_empty n.device.mgmt_host))
    ∷ (dotted prefix (codes "mgmt_port"), str (or_empty n.device.mgmt_port))
    ∷ (dotted prefix (codes "depth"), num (pos n.position))
    ∷ (known_number (dotted prefix (codes "out_slot")) n.out_slot
        ++ (known_number (dotted prefix (codes "out_port")) n.out_port
            ++ known_text (dotted prefix (codes "out_port_name")) n.out_port_name))

-- `dict.update`
abbrev pub update : Variables → Variables → Variables
update vars [] = vars
update vars ((k, v) ∷ more) = update (assign vars k v) more

-- ===== src/Resolution/Rows.antt =====
-- The rows that database_utils/utils/provisioning_resolution.py reads, as its queries give them.
-- An id stands with its `str()` where a variable shows it.
use models_utils.Prelude.{ℕ, Bool, Option, List, Text}
use models_utils.Expr.Eval.{Value}
use models_utils.Expr.Block.{Computed, Variables}
use models_utils.Graph.Paths.{Item}

-- An inventory item with its device type and category. `mgmt_port` is the text of the port, none
-- for None and 0.
pub record Device : Type 0 where
  pub item : Item
  pub id_text : Text
  pub serial_number : Option Text
  pub mac_address : Option Text
  pub device_type_id : ℕ
  pub device_type_name : Text
  pub category_key : Option Text
  pub category_tier : Option Text
  pub is_passive : Bool
  pub mgmt_host : Option Text
  pub mgmt_port : Option Text
  pub path_role : Option Text

-- A row of inventory_item_playbook (`owner` is the item) or of device_type_playbook (the type).
pub record Binding : Type 0 where
  pub owner : ℕ
  pub purpose : Text
  pub playbook_id : ℕ

-- A row of network_link of the company with its upstream port.
pub record Link : Type 0 where
  pub down_item_id : ℕ
  pub up_item_id : ℕ
  pub slot : Option ℕ
  pub number : Option ℕ
  pub name : Option Text

-- A playbook. `blob` is `json.dumps` of its definition; `texts` are the strings that the executor
-- renders, as `playbook_expr.strings` yields them. A computed block with an entry that is no dict
-- is not_a_list.
pub record PlaybookRow : Type 0 where
  pub id : ℕ
  pub company_id : ℕ
  pub is_active : Bool
  pub version : ℕ
  pub blob : Text
  pub texts : List Text
  pub computed : Computed

-- A client; `custom` are the typed values of its custom fields.
pub record Client : Type 0 where
  pub id_text : Text
  pub name : Option Text
  pub code : Option Text
  pub email : Option Text
  pub phone : Option Text
  pub address : Option Text
  pub custom : List (Text × Value)

-- A row of `provisioning_params`.
pub record Param : Type 0 where
  pub key : Text
  pub value : Value
  pub of_service : Bool

pub record ServicePlan : Type 0 where
  pub id_text : Text
  pub name : Option Text
  pub download_mbps : Value
  pub upload_mbps : Value
  pub params : List Param

pub record ClientService : Type 0 where
  pub id_text : Text
  pub company_id : ℕ
  pub cpe_item_id : Option ℕ
  pub client : Option Client
  pub plan : Option ServicePlan
  pub params : List (Text × Value)

-- Frames of the last activation that the drift check reads.
pub record Baseline : Type 0 where
  pub shared : Variables
  pub device : List (ℕ × Variables)

-- What the queries find: `swapped` is the old unit of the latest swap event.
pub record Tables : Type 0 where
  pub devices : List Device
  pub overrides : List Binding
  pub defaults : List Binding
  pub links : List Link
  pub playbooks : List PlaybookRow
  pub swapped : Option Device
  pub baseline : Option Baseline

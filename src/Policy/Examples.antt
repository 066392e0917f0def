-- ===== src/Policy/Examples.antt =====
-- One tenant's settings, roles and invoices: instances of the theorems on the guards.
use models_utils.Prelude.{
  ℕ, ◌≤◌, ◌≡◌, refl, false, ◌||◌, none, some, List, [], ◌∷◌, codes, any, all, arith,
}
use models_utils.Runs.Rows.{Playbook}
use models_utils.Runs.Plan.{Node}
use models_utils.Expr.Codes.{lower}
use models_utils.Expr.Lexer.{split_dots}
use models_utils.Policy.Strings.{strip, stripped}
use models_utils.Policy.Transport.{Settings, Item, resolve_endpoint, endpoint}
use models_utils.Policy.TransportLaws.{
  Resolves, OfCompany, Follows, settings_used, resolve_endpoint-Follows,
}
use models_utils.Policy.Gates.{DeviceType, run_gate_failures}
use models_utils.Policy.GateLaws.{no_failure, may_go_live, run_gate_failures-may_go_live}
use models_utils.Policy.Permissions.{
  User, grants, has_permission, resource_wildcard, has_permission-grants,
}
use models_utils.Policy.Billing.{
  Subscription, Invoice, severity, billing_access, read_only, billing_access-le,
}

abbrev proxied : Settings
proxied = record {
  company_id = 1;
  dial_target = codes "device";
  proxy_kind = codes "socks5";
  proxy_address = some (codes " hub:1080 ");
  gateway_host = none;
}

abbrev router : Item
router = record { mgmt_host = some (codes "10.0.0.2"); mgmt_port = none; nat_port = none }

resolve_endpoint-Follows_example :
    let used = settings_used (some proxied) none in
    Resolves
      (λ e. OfCompany 1 used × Follows used router e)
      (resolve_endpoint (some proxied) router 1 22 none)
resolve_endpoint-Follows_example = resolve_endpoint-Follows (some proxied) router 1 22 none refl

proxied_dial :
    resolve_endpoint (some proxied) router 1 22 none
    ≡ endpoint (record {
      host = codes "10.0.0.2";
      port = 22;
      proxy = some (codes "hub:1080");
      dial_target = codes "device";
    })
unfolding resolve_endpoint stripped
proxied_dial = refl

abbrev tested : Playbook
tested = record {
  id = 7;
  name = codes "olt_activate";
  version = some 3;
  last_dry_run_version = some 3;
}

abbrev olt : Node
olt = record {
  position = 1;
  item_id = 12;
  device_type_id = some 4;
  playbook_id = 7;
  playbook_version = some 3;
  category_key = none;
  device_type_name = codes "OLT";
  label = none;
  serial_number = none;
}

abbrev types : List (ℕ × DeviceType)
types = (4, record { provisioning_enabled = false }) ∷ []

run_gate_failures-may_go_live_example :
    no_failure (run_gate_failures none (tested ∷ []) types (olt ∷ []) false)
    ≡ (false || all (may_go_live none (tested ∷ []) types) (olt ∷ []))
run_gate_failures-may_go_live_example =
    run_gate_failures-may_go_live none (tested ∷ []) types (olt ∷ []) false

-- The device type that is opted out blocks the run.
opted_out_blocks : no_failure (run_gate_failures none (tested ∷ []) types (olt ∷ []) false) ≡ false
unfolding run_gate_failures lower strip
opted_out_blocks = refl

abbrev clerk : User
clerk = record {
  roles =
      record { name = codes "ADMIN"; company_id = some 1; permissions = codes "clients.*" ∷ [] }
      ∷ [];
}

has_permission-grants_example :
    has_permission clerk (codes "clients.read") ≡ any (grants (codes "clients.read")) clerk.roles
has_permission-grants_example = has_permission-grants clerk (codes "clients.read")

-- A tenant's role named ADMIN is no wildcard.
no_orders : has_permission clerk (codes "orders.read") ≡ false
unfolding has_permission resource_wildcard split_dots
no_orders = refl

abbrev subscription : Subscription
subscription = record {
  id = 9;
  status = codes "ACTIVE";
  discount_percent = 0;
  discount_until = none;
  quote_above_clients = none;
  custom_monthly_price = none;
}

abbrev unpaid : List Invoice
unpaid = record { subscription_id = 9; status = codes "PENDING"; due_date = 1000 } ∷ []

billing_access-le_example :
    severity (billing_access (some subscription) unpaid 1297000)
    ≤ severity (billing_access (some subscription) unpaid 9000000)
billing_access-le_example =
    billing_access-le (some subscription) unpaid 1297000 9000000 (omega arith)

fifteen_days : billing_access (some subscription) unpaid 1297000 ≡ read_only
unfolding billing_access
fifteen_days = refl

-- ===== src/Policy/Transport.antt =====
-- database_utils/utils/transport.py: `resolve_endpoint` and `company_dials_gateway`.
-- The row that `company_provisioning_settings` finds is an argument.
use models_utils.Prelude.{
  ℕ, suc, Bool, true, false, not, ◌&&◌, Option, none, some, [], ◌∷◌, nat_beq, Text, codes, ◌==◌,
  text_eq, is_some, if◌then◌else◌,
}
use models_utils.Policy.Strings.{stripped, non_empty}

pub record Settings : Type 0 where
  pub company_id : ℕ
  pub dial_target : Text
  pub proxy_kind : Text
  pub proxy_address : Option Text
  pub gateway_host : Option Text

-- The columns of an InventoryItem that a dial reads.
pub record Item : Type 0 where
  pub mgmt_host : Option Text
  pub mgmt_port : Option ℕ
  pub nat_port : Option ℕ

pub record Endpoint : Type 0 where
  pub host : Text
  pub port : ℕ
  pub proxy : Option Text
  pub dial_target : Text

pub data Failure : Type 0 where
  nat_mapping_not_set mgmt_host_not_set proxy_not_provisioned transport_unavailable : Failure

-- (endpoint, None) or (None, error_code)
pub data Resolution : Type 0 where
  endpoint : Endpoint → Resolution
  failure : Failure → Resolution

abbrev pub dials_gateway : Option Settings → Bool
dials_gateway none = false
dials_gateway (some s) = s.dial_target == codes "gateway"

abbrev pub uses_socks5 : Option Settings → Bool
uses_socks5 none = false
uses_socks5 (some s) = s.proxy_kind == codes "socks5"

abbrev pub proxy_address_of : Option Settings → Option Text
proxy_address_of none = none
proxy_address_of (some s) = s.proxy_address

abbrev pub gateway_host_of : Option Settings → Option Text
gateway_host_of none = none
gateway_host_of (some s) = s.gateway_host

unfoldable pub company_dials_gateway : Option Settings → Bool
company_dials_gateway settings = dials_gateway settings

-- `port or default`, where 0 counts as no port
abbrev pub port_or : Option ℕ → ℕ → ℕ
port_or (some (suc n)) d = suc n
port_or _ d = d

abbrev pub has_port : Option ℕ → Bool
has_port (some (suc n)) = true
has_port _ = false

-- A gateway dial names a missing mapping first.
unfoldable pub dial_gateway : Text → Option ℕ → Bool → Option Text → Resolution
dial_gateway [] nat_port proxy_missing proxy = failure nat_mapping_not_set
dial_gateway (c ∷ host) nat_port proxy_missing proxy =
    if not (has_port nat_port)
    then failure nat_mapping_not_set
    else if proxy_missing
    then failure proxy_not_provisioned
    else endpoint (record {
      host = c ∷ host;
      port = port_or nat_port 0;
      proxy = proxy;
      dial_target = codes "gateway";
    })

-- A device dial names a missing hop first.
unfoldable pub dial_device : Text → ℕ → Bool → Option Text → Resolution
dial_device host port true proxy = failure proxy_not_provisioned
dial_device [] port false proxy = failure mgmt_host_not_set
dial_device (c ∷ host) port false proxy =
    endpoint (record { host = c ∷ host; port = port; proxy = proxy; dial_target = codes "device" })

unfoldable pub resolve_with : Option Settings → Item → ℕ → Resolution
unfolding dial_gateway dial_device
resolve_with settings item default_port =
    let proxy =
      if uses_socks5 settings then non_empty (stripped (proxy_address_of settings)) else none in
    let proxy_missing = uses_socks5 settings && not (is_some proxy) in
    if dials_gateway settings
    then dial_gateway (stripped (gateway_host_of settings)) item.nat_port proxy_missing proxy
    else dial_device (stripped item.mgmt_host) (port_or item.mgmt_port default_port) proxy_missing
        proxy

-- `own` is the row of the company, `settings` the one that the caller has given.
unfoldable pub resolve_endpoint : Option Settings → Item → ℕ → ℕ → Option Settings → Resolution
unfolding resolve_with
resolve_endpoint own item company_id default_port none = resolve_with own item default_port
resolve_endpoint own item company_id default_port (some s) =
    if nat_beq s.company_id company_id
    then resolve_with (some s) item default_port
    else failure transport_unavailable

-- ===== src/Policy/TransportLaws.antt =====
-- What an endpoint of transport.py follows from.
use models_utils.Prelude.{
  ℕ, ◌≡◌, ◌≢◌, refl, Bool, true, false, not, ◌&&◌, Option, none, some, [], ◌∷◌, nat_beq,
  nat_beq_iff, Text, codes, ◌==◌, text_eq, is_some, Bool-cases, inl, inr, if◌then◌else◌,
}
use models_utils.Policy.Strings.{stripped, non_empty}
use models_utils.Policy.Transport.{
  Settings, Item, Endpoint, Resolution, dials_gateway, uses_socks5, proxy_address_of,
  gateway_host_of, has_port, dial_gateway, dial_device, resolve_with, resolve_endpoint, endpoint,
  failure,
}

-- An endpoint that the settings ask for: the host of the dial target, and a proxy exactly where
-- there is to be one.
pub record Follows (settings : Option Settings) (item : Item) (e : Endpoint) : Type 0 where
  pub named : e.host ≢ []
  pub host :
      e.host
      ≡ stripped (if dials_gateway settings then gateway_host_of settings else item.mgmt_host)
  pub target : (e.dial_target == codes "gateway") ≡ dials_gateway settings
  pub hop : is_some e.proxy ≡ uses_socks5 settings

abbrev pub Resolves : (Endpoint → Type 0) → Resolution → Type 0
Resolves P (endpoint e) = P e
Resolves P (failure f) = Unit

dial_gateway-Follows :
    (settings : Option Settings) (item : Item) (host : Text) (missing : Bool) (proxy : Option Text)
    → dials_gateway settings ≡ true
    → host ≡ stripped (gateway_host_of settings)
    → (missing ≡ false → is_some proxy ≡ uses_socks5 settings)
    → Resolves (Follows settings item) (dial_gateway host item.nat_port missing proxy)
unfolding dial_gateway
dial_gateway-Follows settings item [] missing proxy g h p = tt
dial_gateway-Follows settings item (c ∷ host) true proxy g h p =
    elim (Bool-cases (has_port item.nat_port)) [ inl b ↦ rw b tt | inr b ↦ rw b tt ]
dial_gateway-Follows settings item (c ∷ host) false proxy g h p =
    elim (Bool-cases (has_port item.nat_port)) [
      | inr b ↦ rw b tt
      | inl b ↦ rw b (record { named = λ e. cc; host = rw (g, h); target = rw g; hop = p refl })
    ]

dial_device-Follows :
    (settings : Option Settings) (item : Item) (host : Text) (port : ℕ) (missing : Bool)
    (proxy : Option Text)
    → dials_gateway settings ≡ false
    → host ≡ stripped item.mgmt_host
    → (missing ≡ false → is_some proxy ≡ uses_socks5 settings)
    → Resolves (Follows settings item) (dial_device host port missing proxy)
unfolding dial_device
dial_device-Follows settings item host port true proxy g h p = tt
dial_device-Follows settings item [] port false proxy g h p = tt
dial_device-Follows settings item (c ∷ host) port false proxy g h p = record {
  named = λ e. cc;
  host = rw (g, h);
  target = rw g;
  hop = p refl;
}

proxy_present :
    (u : Bool) (w : Text)
    → let proxy = if u then non_empty w else none in
      (u && not (is_some proxy)) ≡ false → is_some proxy ≡ u
proxy_present true [] h = cc
proxy_present true (c ∷ w) h = refl
proxy_present false w h = refl

resolve_with-Follows :
    (settings : Option Settings) (item : Item) (default_port : ℕ)
    → Resolves (Follows settings item) (resolve_with settings item default_port)
unfolding resolve_with
resolve_with-Follows settings item d =
    let present = proxy_present (uses_socks5 settings) (stripped (proxy_address_of settings)) in
    elim (Bool-cases (dials_gateway settings)) [
      | inl g ↦ rw g (dial_gateway-Follows settings item _ _ _ g refl present)
      | inr g ↦ rw g (dial_device-Follows settings item _ _ _ _ g refl present)
    ]

-- The row that a call uses.
abbrev pub settings_used : Option Settings → Option Settings → Option Settings
settings_used own none = own
settings_used own (some s) = some s

abbrev pub OfCompany : ℕ → Option Settings → Type 0
OfCompany company_id none = Unit
OfCompany company_id (some s) = s.company_id ≡ company_id

also :
    (P : Endpoint → Type 0) {Q : Type 0} (r : Resolution)
    → Q
    → Resolves P r
    → Resolves (λ e. Q × P e) r
also P (endpoint e) q p = (q, p)
also P (failure f) q p = tt

-- Resolution fails closed. Where the company's own row is one of that company, a resolved endpoint
-- comes from settings of that company; its host is not empty and is the gateway's where the tenant
-- dials its gateway, else the item's own; and it goes through a proxy exactly where the tenant
-- uses SOCKS5.
pub resolve_endpoint-Follows :
    (own : Option Settings) (item : Item) (company_id default_port : ℕ) (settings : Option Settings)
    → OfCompany company_id own
    → let used = settings_used own settings in
      Resolves
        (λ e. OfCompany company_id used × Follows used item e)
        (resolve_endpoint own item company_id default_port settings)
unfolding resolve_endpoint
resolve_endpoint-Follows own item company_id d none h =
    also (Follows own item) (resolve_with own item d) h (resolve_with-Follows own item d)
resolve_endpoint-Follows own item company_id d (some s) h =
    elim (Bool-cases (nat_beq s.company_id company_id)) [
      | inr b ↦ rw b tt
      | inl b ↦ rw b (
          also (Follows (some s) item) (resolve_with (some s) item d)
            ((nat_beq_iff s.company_id company_id).0 b) (resolve_with-Follows (some s) item d))
    ]

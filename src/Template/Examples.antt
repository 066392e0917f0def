-- ===== src/Template/Examples.antt =====
-- Tests of the model of playbook_template.py, and its theorems at concrete inputs.
use models_utils.Prelude.{
  ◌≡◌, refl, true, none, some, List, [], ◌∷◌, Text, codes, ◌==◌, text_eq, All, arith, if◌then◌else◌,
}
use models_utils.Prelude.Int.{pos}
use models_utils.Expr.Codes.{Result, is_secret_name}
use models_utils.Expr.Parser.{parse, names}
use models_utils.Expr.Eval.{null, num, str, coerce_operand, evaluate}
use models_utils.Expr.Block.{Entry, Variables, entries}
use models_utils.Template.Errors.{trim, truncate, replace, ok, raised, secret_filtered}
use models_utils.Template.Filters.{Casing, mac_filter, apply}
use models_utils.Template.Parser.{Expr, parse_body}
use models_utils.Template.Render.{
  Rendered, Values, missing, find_variables, find_template_errors, render_string,
}
use models_utils.Template.Variables.{Declared, Resolving, resolve_variables}
use models_utils.Template.Ensures.{Ensures}
use models_utils.Template.WellFormed.{IsWellFormed, parse_body-IsWellFormed}
use models_utils.Template.RoundTrip.{print_body, parse_body-print}
use models_utils.Template.RenderLaws.{render_string-returns}
use models_utils.Template.CheckLaws.{
  IsRuntime, ArePresent, Agree, render_string-IsRuntime, render_string-Agree,
}
use models_utils.Template.MacLaws.{mac_filter-mac_filter}
use models_utils.Template.ReservedLaws.{IsGuarded, resolve_variables-IsGuarded}

-- Stands for the interpreter's tables.
abbrev casing : Casing
casing = record { upper_case = λ s. s; lower_case = λ s. s }

abbrev chained : Text
chained = codes "client.name | trim | truncate:31"

chained_parses :
    parse_body chained
    ≡ ok (record {
      name = codes "client.name";
      filters = (trim, []) ∷ (truncate, codes "31" ∷ []) ∷ [];
    })
unfolding parse_body
chained_parses = refl

indexed_parses :
    parse_body (codes " edge_devices[0].mac ")
    ≡ ok (record { name = codes "edge_devices[0].mac"; filters = [] })
unfolding parse_body
indexed_parses = refl

secret_refused :
    parse_body (codes "input.wifi_password | upper")
    ≡ raised (secret_filtered (codes "input.wifi_password"))
unfolding parse_body
secret_refused = refl

spelled : mac_filter (codes "00-1a:2B3c.4D5e") (codes "dot") ≡ ok (codes "001a.2b3c.4d5e")
unfolding mac_filter
spelled = refl

replaced_all :
    apply casing (codes "aaaa-aa") replace (codes "aa" ∷ codes "b" ∷ []) ≡ ok (codes "bb-b")
unfolding apply
replaced_all = refl

parse_body-IsWellFormed_example : Ensures IsWellFormed (parse_body chained)
parse_body-IsWellFormed_example = parse_body-IsWellFormed chained

-- {{ cpe.serial | replace:"\"","\\" }}
abbrev quoting : Expr
quoting = record {
  name = codes "cpe.serial";
  filters = (replace, codes "\"" ∷ codes "\\" ∷ []) ∷ [];
}

quoting-IsWellFormed : IsWellFormed quoting
unfolding parse_body
quoting-IsWellFormed = record {
  named = refl;
  bounded = omega arith;
  calls = (record { enough = omega arith; few = omega arith; short = omega arith }, tt);
  plain = λ h. cc;
}

parse_body-print_example : parse_body (print_body quoting) ≡ ok quoting
parse_body-print_example = parse_body-print quoting quoting-IsWellFormed

abbrev command : Text
command = codes "bind {{ cpe.mac | mac:dash }} {{cpe.slot|default:\"1\"}} {{{x}}"

-- Only the address has a value.
abbrev values : Values
values n = if n == codes "cpe.mac" then some (codes "001a2b3c4d5e") else none

rendered :
    render_string casing command values
    ≡ ok (codes "bind 00-1A-2B-3C-4D-5E 1 {{{x}}", missing (codes "x") ∷ [])
unfolding render_string
rendered = refl

found : find_variables command ≡ codes "cpe.mac" ∷ codes "cpe.slot" ∷ codes "x" ∷ []
unfolding find_variables
found = refl

render_string-returns_example : (r : Rendered) × (render_string casing command values ≡ ok r)
render_string-returns_example = render_string-returns casing command values

abbrev address : Text
address = codes "arp {{cpe.mac|mac:dot}}"

address-ArePresent : ArePresent values (find_variables address)
unfolding find_variables
address-ArePresent n h = ground arith

render_string-IsRuntime_example :
    (r : Rendered) × (render_string casing address values ≡ ok r) × All IsRuntime r.1
unfolding find_template_errors
render_string-IsRuntime_example =
    render_string-IsRuntime casing address values refl address-ArePresent

-- Another assignment that has the address, and everything else too.
abbrev others : Values
others n = if n == codes "cpe.mac" then some (codes "001a2b3c4d5e") else some n

address-Agree : Agree values others (find_variables address)
unfolding find_variables
address-Agree n h = ground arith

render_string-Agree_example :
    render_string casing address values ≡ render_string casing address others
render_string-Agree_example = render_string-Agree casing address values others address-Agree

mac_filter-mac_filter_example :
    mac_filter (codes "001a.2b3c.4d5e") (codes "colon")
    ≡ mac_filter (codes "00-1a:2B3c.4D5e") (codes "colon")
mac_filter-mac_filter_example =
    mac_filter-mac_filter (codes "00-1a:2B3c.4D5e") (codes "001a.2b3c.4d5e") (codes "dot")
      (codes "colon") spelled

abbrev vlan : List Declared
vlan = record { key = codes "vlan"; default = null; required = true } ∷ []

abbrev slot : List Entry
slot =
    record {
      key = str (codes "slot");
      expr = str (codes "device.port / 8");
      min = null;
      max = null;
    }
    ∷ []

-- A caller tries to set a computed name and a secret.
abbrev provided : Variables
provided =
    (codes "vlan", num (pos 110))
    ∷ (codes "device.port", num (pos 21))
    ∷ (codes "computed.slot", str (codes "reboot"))
    ∷ (codes "secret.wifi", str (codes "x"))
    ∷ []

resolved :
    resolve_variables vlan (entries slot) provided
    ≡ Result.ok (
      (codes "input.vlan", num (pos 110))
          ∷ (codes "vlan", num (pos 110))
          ∷ (codes "device.port", num (pos 21))
          ∷ (codes "computed.slot", num (pos 2))
          ∷ [],
      [],
    )
unfolding resolve_variables parse names is_secret_name coerce_operand evaluate
resolved = refl

resolve_variables-IsGuarded_example :
    (r : Resolving) × (resolve_variables vlan (entries slot) provided ≡ Result.ok r)
    × IsGuarded slot r.0
resolve_variables-IsGuarded_example = resolve_variables-IsGuarded vlan slot provided

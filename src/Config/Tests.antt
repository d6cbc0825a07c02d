-- ===== src/Config/Tests.antt =====
-- The theorems on the configuration at a JSON object that is a list of keys with values.
use edgeflow_energy_gateway.Common.{
  ℕ, zero, suc, ◌<◌, ◌^◌, ◌≡◌, refl, ap, Bool, true, false, Option, none, some, List, [], ◌∷◌,
  arith, ℤ, pos,
}
use edgeflow_energy_gateway.Floats.Scaled.{scaled}
use edgeflow_energy_gateway.Text.{CString, literal}
use edgeflow_energy_gateway.Model.Samples.{sample_config}
use edgeflow_energy_gateway.Config.{Cjson, value_at, gateway_config_load}
use edgeflow_energy_gateway.Config.Fits.{ConfigFits, load-ConfigFits}
use edgeflow_energy_gateway.Config.RoundTrip.{
  Value, text, flag, number, lookup, document, Shows, load-document,
}

-- A value, or an object.
data Json : Type 0 where
  value : Value ℤ → Json
  object : List (CString × Value ℤ) → Json

abbrev found_item : Option (Value ℤ) → Option Json
found_item none = none
found_item (some v) = some (value v)

abbrev item_of : Json → CString → Option Json
item_of (value v) key = none
item_of (object doc) key = found_item (lookup key doc)

abbrev string_of : Json → Option CString
string_of (value (text s)) = some s
string_of (value (flag b)) = none
string_of (value (number d)) = none
string_of (object doc) = none

abbrev bool_of : Json → Option Bool
bool_of (value (text s)) = none
bool_of (value (flag b)) = some b
bool_of (value (number d)) = none
bool_of (object doc) = none

abbrev number_of : Json → Option ℤ
number_of (value (text s)) = none
number_of (value (flag b)) = none
number_of (value (number d)) = some d
number_of (object doc) = none

abbrev is_object_of : Json → Bool
is_object_of (value v) = false
is_object_of (object doc) = true

-- One file that says all of the sample, and one that says that the slave id is 300.
abbrev parse_of : CString → Option Json
parse_of [] = none
parse_of (c ∷ []) = some (object ((literal "modbus_slave_id", number (pos 3000000)) ∷ []))
parse_of (c ∷ d ∷ file) = some (object (document sample_config))

abbrev json : Cjson Json ℤ
json = record {
  parse = parse_of;
  is_object = is_object_of;
  item = item_of;
  string_value = string_of;
  bool_value = bool_of;
  number_value = number_of;
}

sample-Shows : (doc : List (CString × Value ℤ)) → Shows json (object doc) doc
sample-Shows doc key (text s) found =
    ap (λ (o : Option (Value ℤ)). value_at (found_item o) string_of) found
sample-Shows doc key (flag b) found =
    ap (λ (o : Option (Value ℤ)). value_at (found_item o) bool_of) found
sample-Shows doc key (number d) found =
    ap (λ (o : Option (Value ℤ)). value_at (found_item o) number_of) found

pow-positive : (w : ℕ) → 0 < 2 ^ w
pow-positive zero = omega arith
pow-positive (suc w) = omega (arith, pow-positive w)

load-ConfigFits_example : ConfigFits (gateway_config_load json (some (literal "x"))).1
load-ConfigFits_example =
    load-ConfigFits json (λ w d. grind (arith, pow-positive w)) (some (literal "x"))

load-document_example : gateway_config_load json (some (literal "{}")) ≡ (true, sample_config)
load-document_example =
    load-document json (λ w n h. grind arith) (literal "{}") (object (document sample_config))
      sample_config (omega arith) refl refl (sample-Shows (document sample_config))

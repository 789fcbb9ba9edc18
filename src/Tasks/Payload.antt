-- ===== src/Tasks/Payload.antt =====
-- `validate_payload` of groupmate/social_runtime/tasks/contracts.py.
use astrbot_plugin_groupmate.Prelude.{
  String, ◌==◌, any, Bool, true, false, not, ◌&&◌, none, some, List, [], ◌∷◌, if◌then◌else◌,
}
use astrbot_plugin_groupmate.Json.{
  Json, null, boolean, int, float, text, array, object, Fields, end, field, get,
}
use astrbot_plugin_groupmate.Result.{
  Result, ok, raise, value_error, lookup_error, require, ◌>>=◌, ◌>>◌,
}
use astrbot_plugin_groupmate.Tasks.Contracts.{CapabilityField}

abbrev pub is_text : Json → Bool
is_text (text s) = true
is_text _ = false

abbrev pub is_int : Json → Bool
is_int (int z) = true
is_int _ = false

abbrev pub is_number : Json → Bool
is_number (int z) = true
is_number (float m e) = true
is_number _ = false

abbrev pub is_boolean : Json → Bool
is_boolean (boolean b) = true
is_boolean _ = false

abbrev pub is_object : Json → Bool
is_object (object f) = true
is_object _ = false

abbrev pub is_array : Json → Bool
is_array (array xs) = true
is_array _ = false

abbrev pub is_null : Json → Bool
is_null null = true
is_null _ = false

-- Whether a value has a field's type; a type outside the table is a KeyError.
unfoldable pub has_type : String → Json → Result Bool
has_type type_name value =
    if type_name == "string"
    then ok (is_text value)
    else if type_name == "integer"
    then ok (is_int value)
    else if type_name == "number"
    then ok (is_number value)
    else if type_name == "boolean"
    then ok (is_boolean value)
    else if type_name == "object"
    then ok (is_object value)
    else if type_name == "array"
    then ok (is_array value)
    else if type_name == "null"
    then ok (is_null value)
    else raise lookup_error

-- whether every key of a payload is declared
unfoldable pub are_declared : Fields → List CapabilityField → Bool
unfolding any
are_declared end schema = true
are_declared (field key value rest) schema =
    any (λ f. f.name == key) schema && are_declared rest schema

-- one round of the loop over the schema
unfoldable pub validate_field : Fields → CapabilityField → Result (Unit {0})
validate_field payload f = elim (get f.name payload) [
  | none ↦ require (not f.required) value_error
  | some value ↦
      if f.type_name == "any"
      then ok tt
      else (do valid ← has_type f.type_name value; require valid value_error)
]

unfoldable pub validate_fields : Fields → List CapabilityField → Result (Unit {0})
validate_fields payload [] = ok tt
validate_fields payload (f ∷ fs) = do validate_field payload f; validate_fields payload fs

unfoldable pub validate_payload : Fields → List CapabilityField → Result (Unit {0})
validate_payload payload schema = do
  require (are_declared payload schema) value_error
  validate_fields payload schema

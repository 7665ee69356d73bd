-- ===== src/Mcp/Validator.antt =====
-- internal/mcp/validator.go: a tool's input against its schema.
pub mod Sound
use agent_exec_engine.Prelude.{
  String, Bool, true, false, not, List, [], ◌∷◌, Option, none, some, if◌then◌else◌, ◌==◌, Map,
  lookup, keys, is_some, contains, Result, ok, err, ◌>>=◌, ◌>>◌, fail_if,
}
use agent_exec_engine.Types.{
  ToolSchema, Property, Value, text, boolean, signed, unsigned, float, array, object, is_integral,
}

pub data InputError : Type 0 where
  missing_field : String → InputError
  wrong_type : String → String → InputError
  not_a_string : String → InputError
  not_in_enum : String → List String → InputError

abbrev is_text : Value → Bool
is_text (text s) = true
is_text _ = false

-- The case "integer" of `matchesType`.
abbrev is_integer : Value → Bool
is_integer (signed n) = true
is_integer (unsigned n) = true
is_integer (float v) = is_integral v
is_integer _ = false

abbrev is_boolean : Value → Bool
is_boolean (boolean b) = true
is_boolean _ = false

abbrev is_array : Value → Bool
is_array (array items) = true
is_array _ = false

abbrev is_object : Value → Bool
is_object (object fields) = true
is_object _ = false

unfoldable pub matches_type : String → Value → Bool
matches_type expected value =
    if expected == "string"
    then is_text value
    else if expected == "integer"
    then is_integer value
    else if expected == "boolean"
    then is_boolean value
    else if expected == "array"
    then is_array value
    else if expected == "object"
    then is_object value
    else true

-- The test of an enumeration, which an empty one skips.
unfoldable pub check_enum : String → List String → Value → Result InputError (Unit {0})
check_enum name [] value = ok tt
check_enum name (first ∷ others) (text s) =
    fail_if (not (contains (first ∷ others) s)) (not_in_enum name (first ∷ others))
check_enum name (first ∷ others) _ = err (not_a_string name)

-- One round of the loop over the input; a field that the schema does not name passes.
unfoldable pub check_field : String → Option Property → Option Value → Result InputError (Unit {0})
unfolding matches_type check_enum
check_field name none value = ok tt
check_field name (some property) none = ok tt
check_field name (some property) (some value) =
    fail_if (not (matches_type property.type value)) (wrong_type name property.type)
    >> check_enum name property.enum value

unfoldable pub check_required : List String → Map Value → Result InputError (Unit {0})
check_required [] input = ok tt
check_required (field ∷ fields) input =
    fail_if (not (is_some (lookup field input))) (missing_field field)
    >> check_required fields input

unfoldable pub check_fields : ToolSchema → Map Value → List String → Result InputError (Unit {0})
check_fields schema input [] = ok tt
check_fields schema input (name ∷ names) =
    check_field name (lookup name schema.properties) (lookup name input)
    >> check_fields schema input names

-- `range` is the order in which Go visits the input's entries.
unfoldable pub validate_input :
    (List String → List String) → ToolSchema → Map Value → Result InputError (Unit {0})
validate_input range schema input =
    check_required schema.required input >> check_fields schema input (range (keys input))

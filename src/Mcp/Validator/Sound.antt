-- ===== src/Mcp/Validator/Sound.antt =====
-- What an input that passes the validator has.
use agent_exec_engine.Prelude.{
  ◌<◌, String, ◌≡◌, refl, ◌↔◌, true, List, [], ◌∷◌, Option, none, some, eq_iff, eq_refl, Map,
  lookup, lookup-keys, keys, is_some, count, contains, ok, arith, inl, inr, ◌⊎◌, >>=-eq-ok, IsOrder,
}
use agent_exec_engine.Types.{ToolSchema, Property, Value, text}
use agent_exec_engine.Mcp.Validator.{
  matches_type, check_enum, check_field, check_required, check_fields, validate_input,
}

check_required-ok :
    (fields : List String) (input : Map Value) (field : String)
    → check_required fields input ≡ ok tt
    → contains fields field ≡ true
    → is_some (lookup field input) ≡ true
unfolding check_required contains
check_required-ok [] input field e h = ground arith
check_required-ok (f ∷ fields) input field e h =
    ground (arith, eq_iff f field, check_required-ok fields input field)

check_required_total :
    (fields : List String) (input : Map Value)
    → ((field : String) → contains fields field ≡ true → is_some (lookup field input) ≡ true)
    → check_required fields input ≡ ok tt
unfolding check_required contains
check_required_total [] input h = refl
check_required_total (f ∷ fields) input h =
    ground (arith, h f, eq_refl f, check_required_total fields input (λ g p. ground (arith, h g)))

check_fields-ok :
    (schema : ToolSchema) (input : Map Value) (names : List String) (name : String)
    → check_fields schema input names ≡ ok tt
    → 0 < count name names
    → check_field name (lookup name schema.properties) (lookup name input) ≡ ok tt
unfolding check_fields count
check_fields-ok schema input [] name e h = absurd (omega arith)
check_fields-ok schema input (n ∷ names) name e h =
    ground (arith, eq_iff n name, check_fields-ok schema input names name)

check_fields_total :
    (schema : ToolSchema) (input : Map Value) (names : List String)
    → ((name : String)
        → 0 < count name names
        → check_field name (lookup name schema.properties) (lookup name input) ≡ ok tt)
    → check_fields schema input names ≡ ok tt
unfolding check_fields count
check_fields_total schema input [] h = refl
check_fields_total schema input (n ∷ names) h =
    ground
      (arith, h n, eq_refl n, check_fields_total schema input names (λ m p. ground (arith, h m)))

-- A value fits a property when it has the property's type and, where the property lists values, is
-- a text among them.
pub record Fits (property : Property) (value : Value) : Type 0 where
  pub has_type : matches_type property.type value ≡ true
  pub in_enum :
      (property.enum ≡ []) ⊎ ((s : String) × (value ≡ text s) × (contains property.enum s ≡ true))

-- An input has all required fields, and each field that the schema names fits its property.
pub record IsValid (schema : ToolSchema) (input : Map Value) : Type 0 where
  pub required :
      (field : String) → contains schema.required field ≡ true → is_some (lookup field input) ≡ true
  pub fits :
      (name : String) (property : Property) (value : Value)
      → lookup name schema.properties ≡ some property
      → lookup name input ≡ some value
      → Fits property value

check_enum-ok :
    (name : String) (enum : List String) (value : Value)
    → check_enum name enum value ≡ ok tt
    → (enum ≡ []) ⊎ ((s : String) × (value ≡ text s) × (contains enum s ≡ true))
unfolding check_enum
check_enum-ok name [] value e = inl refl
check_enum-ok name (x ∷ xs) (text s) e = inr (s, refl, ground arith)
check_enum-ok name (x ∷ xs) _ e = absurd (ground arith)

check_enum_total :
    (name : String) (enum : List String) (value : Value)
    → (enum ≡ []) ⊎ ((s : String) × (value ≡ text s) × (contains enum s ≡ true))
    → check_enum name enum value ≡ ok tt
unfolding check_enum
check_enum_total name [] value h = refl
check_enum_total name (x ∷ xs) (text s) (inl e) = absurd (ground arith)
check_enum_total name (x ∷ xs) (text s) (inr (t, e, h)) = ground arith
check_enum_total name (x ∷ xs) _ (inl e) = absurd (ground arith)
check_enum_total name (x ∷ xs) _ (inr (t, e, h)) = absurd (ground arith)

check_field-ok :
    (name : String) (property : Property) (value : Value)
    → check_field name (some property) (some value) ≡ ok tt
    → Fits property value
unfolding check_field
check_field-ok name property value e = record {
  has_type = ground arith;
  in_enum = check_enum-ok name property.enum value (ground arith);
}

check_field_total :
    (name : String) (property : Property) (value : Value)
    → Fits property value
    → check_field name (some property) (some value) ≡ ok tt
unfolding check_field
check_field_total name property value f =
    ground (arith, f.has_type, check_enum_total name property.enum value f.in_enum)

check_field_any :
    (name : String) (property : Option Property) (value : Option Value)
    → ((p : Property) (v : Value) → property ≡ some p → value ≡ some v → Fits p v)
    → check_field name property value ≡ ok tt
unfolding check_field
check_field_any name none value h = refl
check_field_any name (some p) none h = refl
check_field_any name (some p) (some v) h = check_field_total name p v (h p v refl refl)

module _ (range : List String → List String) (ordered : IsOrder range) (schema : ToolSchema)
    (input : Map Value) where
  validate_input-Fits :
      (name : String) (property : Property) (value : Value)
      → check_fields schema input (range (keys input)) ≡ ok tt
      → lookup name schema.properties ≡ some property
      → lookup name input ≡ some value
      → Fits property value
  validate_input-Fits name property value e p v =
      let there : 0 < count name (range (keys input)) =
        ground (arith, ordered.counts (keys input) name, lookup-keys name input) in
      check_field-ok name property value
        (ground (arith, check_fields-ok schema input (range (keys input)) name e there))

  validate_input_sound : validate_input range schema input ≡ ok tt → IsValid schema input
  unfolding validate_input
  validate_input_sound e =
      let (u, first, second) = >>=-eq-ok (check_required schema.required input) _ e in
      record {
        required = λ field h. check_required-ok schema.required input field first h;
        fits = λ name property value p v. validate_input-Fits name property value second p v;
      }

  validate_input_complete : IsValid schema input → validate_input range schema input ≡ ok tt
  unfolding validate_input
  validate_input_complete w =
      let first = check_required_total schema.required input w.required in
      let second = check_fields_total schema input (range (keys input)) (λ name h.
        check_field_any name (lookup name schema.properties) (lookup name input) (w.fits name)) in
      ground (arith, first, second)

-- In whatever order Go visits the input, the validator accepts it exactly when it has every
-- required field and each field that the schema names has the type and the value asked for.
pub validate_input-IsValid :
    (range : List String → List String)
    → IsOrder range
    → (schema : ToolSchema) (input : Map Value)
    → (validate_input range schema input ≡ ok tt) ↔ IsValid schema input
validate_input-IsValid range ordered schema input = (
  validate_input_sound range ordered schema input,
  validate_input_complete range ordered schema input,
)

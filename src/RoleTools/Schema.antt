-- ===== src/RoleTools/Schema.antt =====
-- `_matches_type` and `_validate_value`: a value against a normalized schema.
use jarvis.Prelude.{
  ℕ, Bool, true, false, not, ◌&&◌, ◌||◌, if◌then◌else◌, leb, List, all, all-elem, Option, some,
  none, String, str_eq, text_len, ◌≡◌, arith, and_parts, Bool-cases, elem, eq_iff, Option-cases,
  inl, inr,
}
use mathlib.Core.Path.{subst}
use jarvis.Json.{
  item, has_key, Value, Elements, Members, obj, arr, str, int, float, bool, null, no_element,
  element, no_member, member,
}
use jarvis.RoleTools.JsonSize.{require_json}

-- A schema that `_normalize_schema` returned; each has its `enum`, if there is one.
mutual
  pub data Schema : Type 0 where
    object : (enum : Option Elements) → Properties → (required : List String) → Schema
    array : (enum : Option Elements) → (items : Schema) → Schema
    string : (enum : Option Elements) → (max_length : Option ℕ) → Schema
    integer number : (enum : Option Elements) → (minimum maximum : Option Value) → Schema
    boolean null_only : (enum : Option Elements) → Schema

  pub data Properties : Type 0 where
    no_property : Properties
    property : (name : String) → Schema → Properties → Properties

abbrev pub property_of : Properties → String → Option Schema
property_of no_property name = none
property_of (property other schema rest) name =
    if str_eq other name then some schema else property_of rest name

-- Python's `==` and `<` on decoded values, where an int is compared with a float exactly.
pub record Comparison : Type 0 where
  pub equal : Value → Value → Bool
  pub less : Value → Value → Bool

abbrev matches_type : Value → Schema → Bool
matches_type (obj members) (object enum properties required) = true
matches_type (arr elements) (array enum items) = true
matches_type (str s) (string enum max_length) = true
matches_type (int n) (integer enum minimum maximum) = true
matches_type (int n) (number enum minimum maximum) = true
matches_type (float bits) (number enum minimum maximum) = require_json (float bits)
matches_type (bool b) (boolean enum) = true
matches_type null (null_only enum) = true
matches_type _ _ = false

abbrev enum_of : Schema → Option Elements
enum_of (object enum properties required) = enum
enum_of (array enum items) = enum
enum_of (string enum max_length) = enum
enum_of (integer enum minimum maximum) = enum
enum_of (number enum minimum maximum) = enum
enum_of (boolean enum) = enum
enum_of (null_only enum) = enum

module _ (c : Comparison) where
  open c use {equal, less}

  -- value in enum
  abbrev in_enum : Value → Elements → Bool
  in_enum v no_element = false
  in_enum v (element e enum) = equal v e || in_enum v enum

  abbrev enum_allows : Value → Option Elements → Bool
  enum_allows v none = true
  enum_allows v (some enum) = in_enum v enum

  abbrev in_range : Value → (minimum maximum : Option Value) → Bool
  in_range v minimum maximum =
      elim minimum [ none ↦ true | some m ↦ not (less v m) ]
      && elim maximum [ none ↦ true | some m ↦ not (less m v) ]

  -- What is asked before the parts of a value are looked at.
  abbrev allows : Value → Schema → Bool
  allows v schema = require_json v && matches_type v schema && enum_allows v (enum_of schema)

  unfoldable mutual
    -- What a schema asks of the parts of a value.
    pub validate_parts : Value → Schema → Bool
    validate_parts (obj members) (object enum properties required) =
        all (has_key members) required && validate_members members properties
    validate_parts (arr elements) (array enum items) = validate_elements elements items
    validate_parts (str s) (string enum (some max_length)) = leb (text_len s) max_length
    validate_parts v (integer enum minimum maximum) = in_range v minimum maximum
    validate_parts v (number enum minimum maximum) = in_range v minimum maximum
    validate_parts _ _ = true

    -- A member that is not declared is refused.
    validate_members : Members → Properties → Bool
    validate_members no_member properties = true
    validate_members (member key v members) properties =
        elim (property_of properties key) [
          | none ↦ false
          | some schema ↦ allows v schema && validate_parts v schema
        ]
        && validate_members members properties

    validate_elements : Elements → Schema → Bool
    validate_elements no_element items = true
    validate_elements (element v elements) items =
        (allows v items && validate_parts v items) && validate_elements elements items

  -- `true` is the return of `_validate_value`, `false` its RoleToolProtocolError.
  unfoldable pub validate_value : Value → Schema → Bool
  validate_value v schema = allows v schema && validate_parts v schema

  has_key-item :
      (members : Members) (name : String)
      → has_key members name ≡ true
      → (v : Value) × (item members name ≡ some v)
  has_key-item members name h = elim (Option-cases (item members name)) [
    | inl absent ↦ absurd (ground (arith, h, absent))
    | inr found ↦ found
  ]

  declared_schema :
      (properties : Properties) (key : String) (w : Value)
      → elim (property_of properties key) [
        | none ↦ false
        | some schema ↦ allows w schema && validate_parts w schema
      ]
        ≡ true
      → (schema : Schema) × (property_of properties key ≡ some schema)
        × (validate_value w schema ≡ true)
  unfolding validate_value
  declared_schema properties key w h = elim (Option-cases (property_of properties key)) [
    | inl undeclared ↦ absurd (ground (arith, h, undeclared))
    | inr (schema, declared) ↦ (schema, declared, ground (arith, h, declared))
  ]

  validate_members-item :
      (members : Members) (properties : Properties) (name : String) (v : Value)
      → validate_members members properties ≡ true
      → item members name ≡ some v
      → (schema : Schema) × (property_of properties name ≡ some schema)
        × (validate_value v schema ≡ true)
  unfolding validate_value validate_parts
  validate_members-item no_member properties name v h e = absurd (ground (arith, e))
  validate_members-item (member key w members) properties name v h e =
      let (here, later) =
        and_parts
          (elim (property_of properties key) [
            | none ↦ false
            | some schema ↦ allows w schema && validate_parts w schema
          ])
          (validate_members members properties) h in
      elim (Bool-cases (str_eq key name)) [
        | inr other ↦ validate_members-item members properties name v later (ground (arith, e))
        | inl same ↦
            let same_value : w ≡ v = ground (arith, e) in
            let (schema, declared, valid) = declared_schema properties key w here in
            (
              schema,
              ground (arith, declared, eq_iff key name, same),
              subst (λ u. validate_value u schema ≡ true) same_value valid,
            )
      ]

  -- The members of an object that a schema allows are declared and allowed themselves, and the
  -- required ones are there.
  pub validate_value-members :
      (members : Members) (enum : Option Elements) (properties : Properties)
      (required : List String)
      → validate_value (obj members) (object enum properties required) ≡ true
      → ((name : String) → elem name required ≡ true → (v : Value) × (item members name ≡ some v))
        × ((name : String) (v : Value)
            → item members name ≡ some v
            → (schema : Schema) × (property_of properties name ≡ some schema)
              × (validate_value v schema ≡ true))
  unfolding validate_value validate_parts
  validate_value-members members enum properties required h =
      let (allowed, parts) = and_parts _ _ h in
      let (complete, declared) = and_parts _ _ parts in
      (
        λ name here.
            has_key-item members name (all-elem (has_key members) required name complete here),
        λ name v. validate_members-item members properties name v declared,
      )

-- ===== src/Json.antt =====
-- The values of a decoded JSON document, as the program's validators see them.
use jarvis.Prelude.{ℕ, String, str_eq, if◌then◌else◌, Bool, true, false, Option, some, none}

-- Python's int.
pub data ℤ : Type 0 where
  pos negsuc : ℕ → ℤ

-- `float` carries the 64 bits of the number: the validators only ask whether a value is one.
mutual
  pub data Value : Type 0 where
    obj : Members → Value
    arr : Elements → Value
    str : String → Value
    int : ℤ → Value
    float : ℕ → Value
    bool : Bool → Value
    null : Value

  pub data Elements : Type 0 where
    no_element : Elements
    element : Value → Elements → Elements

  pub data Members : Type 0 where
    no_member : Members
    member : (key : String) → Value → Members → Members

-- The member of a decoded object.
abbrev pub item : Members → String → Option Value
item no_member name = none
item (member key v members) name = if str_eq key name then some v else item members name

-- name in value
abbrev pub has_key : Members → String → Bool
has_key members name = elim (item members name) [ none ↦ false | some v ↦ true ]

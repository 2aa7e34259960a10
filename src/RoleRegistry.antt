-- ===== src/RoleRegistry.antt =====
-- src/core/brain/role_registry.py: the table of roles, the check that a registration closes no
-- cycle of parents, and the inheritance. The lock makes every method one step.
pub mod Cycles
pub mod Inheritance
mod Samples
use jarvis.Prelude.{
  ℕ, zero, suc, max, min, ◌+◌, ◌≡◌, Bool, true, false, not, ◌&&◌, if◌then◌else◌, List, [], ◌∷◌,
  ◌++◌, Option, some, none, String, str_eq, elem, length, select, arith,
}
use jarvis.Json.{Value, ℤ, pos, negsuc}
use jarvis.Result.{Result, err, ok}

-- `metadata` is a dict: its items in insertion order.
pub record AgentProfile : Type 0 where
  pub name : String
  pub display_name : String
  pub description : String
  pub parent_role : Option String
  pub capabilities : List String
  pub constraints : List String
  pub prompt_template : String
  pub tools : List String
  pub priority : ℤ
  pub metadata : List (String × Value)

-- `_roles`: its values in insertion order. Each is stored under its own name.
pub record RoleRegistry : Type 0 where
  pub roles : List AgentProfile

pub data RegistryError : Type 0 where
  already_registered : String → RegistryError
  cycle_detected : List String → RegistryError
  -- The model's fuel, not an error of the program.
  out_of_fuel : RegistryError

abbrev pub find : List AgentProfile → String → Option AgentProfile
find [] name = none
find (p ∷ roles) name = if str_eq p.name name then some p else find roles name

abbrev pub contains : RoleRegistry → String → Bool
contains registry name = elim (find registry.roles name) [ none ↦ false | some p ↦ true ]

abbrev pub parent_of : List AgentProfile → String → Option String
parent_of roles name = elim (find roles name) [ none ↦ none | some p ↦ p.parent_role ]

-- The `while` of `_validate_acyclic_registration`; `path` is reversed. `ok` is its return.
unfoldable pub walk :
    List AgentProfile
    → (fuel : ℕ) → (path seen : List String) → Option String
    → Result {0, 0} RegistryError Unit
walk roles fuel path seen none = ok tt
walk roles zero path seen (some parent_name) = err out_of_fuel
walk roles (suc fuel) path seen (some parent_name) =
    let rest =
      walk roles fuel (parent_name ∷ path) (parent_name ∷ seen) (parent_of roles parent_name) in
    if elem parent_name seen then err (cycle_detected (parent_name ∷ path)) else rest

unfoldable pub validate_acyclic_registration :
    RoleRegistry → AgentProfile → Result {0, 0} RegistryError Unit
validate_acyclic_registration registry profile =
    walk registry.roles (suc (suc (length registry.roles))) (profile.name ∷ []) (profile.name ∷ [])
      profile.parent_role

unfoldable pub register : RoleRegistry → AgentProfile → Result RegistryError RoleRegistry
register registry profile =
    if contains registry profile.name
    then err (already_registered profile.name)
    else elim (validate_acyclic_registration registry profile) [
      | err e ↦ err e
      | ok done ↦ ok (record { roles = registry.roles ++ profile ∷ [] })
    ]

unfoldable pub unregister : RoleRegistry → String → RoleRegistry × Bool
unregister registry name = (
  record { roles = select (λ p. not (str_eq p.name name)) registry.roles },
  contains registry name,
)

-- list(dict.fromkeys(xs)), `seen` already being there.
abbrev pub fresh_in : List String → List String → List String
fresh_in seen [] = []
fresh_in seen (x ∷ xs) =
    let keep = x ∷ fresh_in (x ∷ seen) xs in
    let skip = fresh_in seen xs in if elem x seen then skip else keep

abbrev pub from_keys : List String → List String
from_keys xs = fresh_in [] xs

abbrev set_item : String × Value → List (String × Value) → List (String × Value)
set_item item [] = item ∷ []
set_item item (other ∷ items) =
    let rest = other ∷ set_item item items in if str_eq other.0 item.0 then item ∷ items else rest

-- {**xs, **ys}
abbrev merge : List (String × Value) → List (String × Value) → List (String × Value)
merge xs [] = xs
merge xs (item ∷ ys) = merge (set_item item xs) ys

-- max(a, b)
abbrev max_priority : ℤ → ℤ → ℤ
max_priority (pos a) (pos b) = pos (max a b)
max_priority (pos a) (negsuc b) = pos a
max_priority (negsuc a) (pos b) = pos b
max_priority (negsuc a) (negsuc b) = negsuc (min a b)

unfoldable pub inherit : AgentProfile → AgentProfile → AgentProfile
inherit resolved child = record {
  name = child.name;
  display_name = child.display_name;
  description = child.description;
  parent_role = none;
  capabilities = from_keys (resolved.capabilities ++ child.capabilities);
  constraints = from_keys (resolved.constraints ++ child.constraints);
  prompt_template = child.prompt_template;
  tools = from_keys (resolved.tools ++ child.tools);
  priority = max_priority resolved.priority child.priority;
  metadata = merge resolved.metadata child.metadata;
}

-- The chain from `current`, its ancestors after it; `none` if the `while` has not ended after
-- `fuel` rounds.
unfoldable pub chain_from :
    List AgentProfile → (fuel : ℕ) → AgentProfile → Option (List AgentProfile)
chain_from roles zero current = none
chain_from roles (suc fuel) current = elim current.parent_role [
  | none ↦ some (current ∷ [])
  | some parent_name ↦ elim (find roles parent_name) [
    | none ↦ some (current ∷ [])
    | some parent ↦ elim (chain_from roles fuel parent) [
      | none ↦ none
      | some chain ↦ some (current ∷ chain)
    ]
  ]
]

-- The last of the chain is taken as it is, and the others inherit in turn.
unfoldable pub fold_chain : AgentProfile → List AgentProfile → AgentProfile
fold_chain child [] = child
fold_chain child (parent ∷ chain) = inherit (fold_chain parent chain) child

unfoldable pub resolve_inheritance : RoleRegistry → (fuel : ℕ) → AgentProfile → Option AgentProfile
resolve_inheritance registry fuel profile = elim (chain_from registry.roles fuel profile) [
  | some (child ∷ chain) ↦ some (fold_chain child chain)
  | _ ↦ none
]

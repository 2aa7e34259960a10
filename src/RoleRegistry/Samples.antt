-- ===== src/RoleRegistry/Samples.antt =====
-- A registry of two roles, and the theorems at it.
use jarvis.Prelude.{
  ℕ, ◌+◌, ◌≡◌, ◌≢◌, ◌↔◌, refl, if◌then◌else◌, true, none, str_eq, List, [], ◌∷◌, Option, some,
  String, elem, any,
}
use jarvis.Json.{pos}
use jarvis.Result.{err, ok}
use jarvis.RoleRegistry.{
  AgentProfile, RoleRegistry, cycle_detected, out_of_fuel, register, unregister, find,
  resolve_inheritance, walk, validate_acyclic_registration,
}
use jarvis.RoleRegistry.Cycles.{
  missing, IsAcyclic, register-IsAcyclic, unregister-IsAcyclic, register-ne-out_of_fuel,
}
use jarvis.RoleRegistry.Inheritance.{Ancestry, resolve-tools}

abbrev role : String → Option String → List String → AgentProfile
role name parent tools = record {
  name = name;
  display_name = name;
  description = "";
  parent_role = parent;
  capabilities = [];
  constraints = [];
  prompt_template = "";
  tools = tools;
  priority = pos 5;
  metadata = [];
}

-- The parent of "base" is not registered yet.
abbrev base : AgentProfile
base = role "base" (some "reviewer") ("memory_search" ∷ [])

abbrev engineer : AgentProfile
engineer = role "engineer" (some "base") ("model_list" ∷ [])

abbrev reviewer : AgentProfile
reviewer = role "reviewer" (some "engineer") []

abbrev one_role : RoleRegistry
one_role = record { roles = base ∷ [] }

abbrev two_roles : RoleRegistry
two_roles = record { roles = base ∷ engineer ∷ [] }

register_run : register one_role engineer ≡ ok two_roles
unfolding register validate_acyclic_registration walk
register_run = refl

-- The third would close a cycle.
register_cycle :
    register two_roles reviewer
    ≡ err (cycle_detected ("reviewer" ∷ "base" ∷ "engineer" ∷ "reviewer" ∷ []))
unfolding register validate_acyclic_registration walk
register_cycle = refl

empty-IsAcyclic : IsAcyclic (record { roles = [] })
empty-IsAcyclic v = missing v refl

register_first : register (record { roles = [] }) base ≡ ok one_role
unfolding register validate_acyclic_registration walk
register_first = refl

one_role-IsAcyclic : IsAcyclic one_role
one_role-IsAcyclic =
    register-IsAcyclic (record { roles = [] }) base one_role empty-IsAcyclic register_first

two_roles-IsAcyclic : IsAcyclic two_roles
two_roles-IsAcyclic = register-IsAcyclic one_role engineer two_roles one_role-IsAcyclic register_run

register-IsAcyclic_example : IsAcyclic two_roles
register-IsAcyclic_example =
    register-IsAcyclic one_role engineer two_roles one_role-IsAcyclic register_run

unregister-IsAcyclic_example :
    IsAcyclic (unregister two_roles "base").0
    × ((v : String)
        → find (unregister two_roles "base").0.roles v
          ≡ (if str_eq v "base" then none else find two_roles.roles v))
    × (((unregister two_roles "base").1 ≡ true) ↔ (find two_roles.roles "base" ≢ none))
unregister-IsAcyclic_example = unregister-IsAcyclic two_roles "base" two_roles-IsAcyclic

register-ne-out_of_fuel_example : register two_roles reviewer ≢ err out_of_fuel
register-ne-out_of_fuel_example = register-ne-out_of_fuel two_roles reviewer

resolve-tools_example :
    (fuel : ℕ) × (chain : List AgentProfile) × (resolved : AgentProfile) × Ancestry two_roles.roles
      engineer chain
    × ((extra : ℕ) → resolve_inheritance two_roles (fuel + extra) engineer ≡ some resolved)
    × ((t : String) → elem t resolved.tools ≡ any (λ q. elem t q.tools) chain)
resolve-tools_example = resolve-tools two_roles engineer two_roles-IsAcyclic

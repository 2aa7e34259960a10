-- ===== src/RoleTools/Samples.antt =====
-- A broker with one tool, and the theorems at it. The world counts the calls of the handler.
use jarvis.Prelude.{
  ℕ, suc, ◌≡◌, ◌≢◌, ◌⊎◌, refl, arith, true, false, select, [], ◌∷◌, some, none, String, elem,
}
use jarvis.Json.{item, pos, Value, Members, obj, str, null, no_member, member}
use jarvis.RoleRegistry.{AgentProfile, from_keys}
use jarvis.RoleTools.JsonSize.{bounded_stable_json_size, visit, add, add_string, add_chars}
use jarvis.RoleTools.Schema.{
  Schema, Properties, object, string, no_property, property, property_of, validate_value,
  validate_parts, validate_value-members,
}
use jarvis.RoleTools.Broker.{
  RoleToolCall, RoleToolBroker, Handler, returned, Library, invoke, decide, argument_fault,
  unsizable, authorized_tools,
}
use jarvis.RoleTools.Calls.{from_ollama, from_function, new_call}
use jarvis.RoleTools.Authorization.{
  is_authorized, authorized_tools_lem, invoke-authorized, Recorded, invoke-Recorded,
}

-- A library that compares no numbers and prints no text.
abbrev library : Library
library = record {
  dumps = λ v. "{}";
  float_size = λ bits. 3;
  comparison = record { equal = λ a b. false; less = λ a b. false };
}

abbrev counts : Handler ℕ
counts arguments world = (suc world, returned null)

abbrev engineer : AgentProfile
engineer = record {
  name = "engineer";
  display_name = "Engineer";
  description = "";
  parent_role = none;
  capabilities = [];
  constraints = [];
  prompt_template = "";
  tools = "memory_search" ∷ "model_list" ∷ "memory_search" ∷ [];
  priority = pos 5;
  metadata = [];
}

abbrev query : Properties
query = property "query" (string none (some 8)) no_property

abbrev broker : RoleToolBroker ℕ
broker = record {
  policy = ("engineer", "memory_search" ∷ []) ∷ [];
  handlers = ("memory_search", counts) ∷ [];
  definitions =
      record {
        name = "memory_search";
        description = "Search";
        parameters = object none query ("query" ∷ []);
      }
      ∷ [];
  budget = record {
    max_calls = 5;
    max_argument_bytes = 64;
    max_result_bytes = 64;
    max_total_result_bytes = 128;
    max_elapsed_seconds = 0;
  };
  audit_limit = 2;
  audit = [];
  invocations = [];
}

abbrev arguments : Members
arguments = member "query" (str "dag") no_member

abbrev search_call : RoleToolCall
search_call = record {
  name = "memory_search";
  arguments = arguments;
  round_index = 0;
  call_index = 0;
  call_id = none;
}

-- The handler runs, and its result is returned.
invoke_run : (invoke library broker engineer search_call 0 7).0 ≡ 8
unfolding invoke decide argument_fault bounded_stable_json_size visit add add_string add_chars
    validate_value validate_parts
invoke_run = refl

-- A tool that is declared and not granted is refused.
invoke_refused :
    (invoke library broker engineer (record search_call { name = "model_list" }) 0 7).0 ≡ 7
unfolding invoke decide
invoke_refused = refl

invoke-authorized_example :
    ((invoke library broker engineer search_call 0 7).0 ≡ 7)
    ⊎ ((is_authorized broker engineer "memory_search" ≡ true)
        × (argument_fault library broker search_call ≡ none))
invoke-authorized_example = invoke-authorized library broker engineer search_call 0 7

search_call-sizable : argument_fault library broker search_call ≢ some unsizable
unfolding argument_fault bounded_stable_json_size visit add add_string add_chars validate_value
    validate_parts
search_call-sizable = λ e. absurd (ground (arith, e))

invoke-Recorded_example :
    Recorded broker search_call (invoke library broker engineer search_call 0 7).1
invoke-Recorded_example =
    invoke-Recorded library broker engineer search_call 0 7 search_call-sizable

authorized_tools_lem_example :
    (authorized_tools broker engineer).1
    ≡ select (is_authorized broker engineer) (from_keys engineer.tools)
authorized_tools_lem_example = authorized_tools_lem broker engineer

valid_arguments :
    validate_value library.comparison (obj arguments) (object none query ("query" ∷ [])) ≡ true
unfolding validate_value validate_parts
valid_arguments = refl

validate_value-members_example :
    ((name : String)
      → elem name ("query" ∷ []) ≡ true
      → (v : Value) × (item arguments name ≡ some v))
    × ((name : String) (v : Value)
        → item arguments name ≡ some v
        → (schema : Schema) × (property_of query name ≡ some schema)
          × (validate_value library.comparison v schema ≡ true))
validate_value-members_example =
    validate_value-members library.comparison arguments none query ("query" ∷ []) valid_arguments

abbrev payload : Value
payload = obj (
    member "function"
      (obj (member "name" (str "memory_search") (member "arguments" (obj arguments) no_member)))
      no_member)

from_ollama_run : from_ollama (λ s. none) payload 0 0 ≡ some search_call
unfolding from_ollama from_function new_call
from_ollama_run = refl

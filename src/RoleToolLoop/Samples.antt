-- ===== src/RoleToolLoop/Samples.antt =====
-- A model that asks for one search and then answers, and the theorem at it.
use jarvis.Prelude.{
  true, false, ℕ, suc, ◌==◌, ◌≡◌, refl, if◌then◌else◌, length, strip, List, [], ◌∷◌, some, none,
}
use jarvis.Json.{Value, pos, obj, arr, str, null, no_member, member, no_element, element}
use jarvis.RoleRegistry.{AgentProfile}
use jarvis.RoleTools.JsonSize.{bounded_stable_json_size, visit, add, add_string, add_chars}
use jarvis.RoleTools.Schema.{object, string, no_property, property, validate_value, validate_parts}
use jarvis.RoleTools.Broker.{
  RoleToolBroker, RoleToolBudget, Handler, returned, invoke, decide, authorize, authorized_tools,
  argument_fault, settle, settle_result,
}
use jarvis.RoleTools.Calls.{from_ollama, from_function, new_call}
use jarvis.RoleToolLoop.Parse.{parse_assistant}
use jarvis.RoleToolLoop.Rounds.{
  Env, Request, answered, invoke_tool, execute_call, execute_calls, run_round, run_rounds, run,
}
use jarvis.RoleToolLoop.Budget.{KeepsBudget, run-KeepsBudget}

abbrev search_request : Value
search_request = obj (
    member "message"
      (obj (
        member "role" (str "assistant") (
          member "tool_calls"
            (arr (
              element
                (obj (
                  member "function"
                    (obj (
                      member "name" (str "memory_search") (
                        member "arguments" (obj (member "query" (str "dag") no_member)) no_member)))
                    no_member))
                no_element))
            no_member)))
      no_member)

abbrev reply : Value
reply = obj (
    member "message"
      (obj (member "role" (str "assistant") (member "content" (str " Done. ") no_member)))
      no_member)

-- The world counts the searches.
abbrev env : Env ℕ
env = record {
  library = record {
    dumps = λ v. "null";
    float_size = λ bits. 3;
    comparison = record { equal = λ a b. true; less = λ a b. false };
  };
  loads = λ text. none;
  chat = λ model history tools searches.
      (searches, if length history == 1 then some search_request else some reply);
  is_late = λ n. false;
  duration = λ n. 0;
}

abbrev search : Handler ℕ
search arguments searches = (suc searches, returned null)

abbrev budget : RoleToolBudget
budget = record {
  max_calls = 2;
  max_argument_bytes = 64;
  max_result_bytes = 64;
  max_total_result_bytes = 128;
  max_elapsed_seconds = 0;
}

abbrev engineer : AgentProfile
engineer = record {
  name = "engineer";
  display_name = "Engineer";
  description = "";
  parent_role = none;
  capabilities = [];
  constraints = [];
  prompt_template = "";
  tools = "memory_search" ∷ [];
  priority = pos 5;
  metadata = [];
}

abbrev broker : RoleToolBroker ℕ
broker = record {
  policy = ("engineer", "memory_search" ∷ []) ∷ [];
  handlers = ("memory_search", search) ∷ [];
  definitions =
      record {
        name = "memory_search";
        description = "Search";
        parameters =
            object none (property "query" (string none (some 8)) no_property) ("query" ∷ []);
      }
      ∷ [];
  budget = budget;
  audit_limit = 4;
  audit = [];
  invocations = [];
}

abbrev request : Request
request = record { model = "qwen"; profile = engineer; budget = budget }

abbrev messages : List Value
messages = obj (member "role" (str "user") (member "content" (str "Find it") no_member)) ∷ []

run-KeepsBudget_example : KeepsBudget budget messages (run env request messages broker 0)
run-KeepsBudget_example = run-KeepsBudget env request messages broker 0

run_answer : (run env request messages broker 0).1 ≡ answered "Done."
unfolding run run_rounds run_round parse_assistant execute_calls execute_call invoke_tool invoke
    decide authorize authorized_tools argument_fault settle settle_result bounded_stable_json_size
    visit add add_string add_chars validate_value validate_parts from_ollama from_function new_call
    strip
run_answer = refl

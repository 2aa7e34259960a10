-- ===== src/RoleToolLoop/Invocation.antt =====
-- What the loop does with the broker's answer: `authorized_definitions` and `_invoke`.
use jarvis.Prelude.{
  ◌==◌, Bool, true, false, ◌&&◌, if◌then◌else◌, List, [], ◌∷◌, Option, some, none, String, str_eq,
}
use mathlib.Core.List.{reverse}
use jarvis.Json.{Value, obj, null}
use jarvis.Result.{Result, ok, err}
use jarvis.RoleRegistry.{AgentProfile}
use jarvis.RoleTools.JsonSize.{require_json}
use jarvis.RoleTools.Broker.{
  Library, RoleToolBroker, RoleToolCall, RoleToolResult, RoleToolInvocation, RoleToolDefinition,
  definition_of, authorized_tools, from_value, failure, InvokeError,
}

-- `authorized_definitions`
abbrev pub definitions_of : List RoleToolDefinition → List String → List RoleToolDefinition
definitions_of definitions [] = []
definitions_of definitions (name ∷ names) = elim (definition_of definitions name) [
  | none ↦ definitions_of definitions names
  | some d ↦ d ∷ definitions_of definitions names
]

abbrev pub same_id : Option String → Option String → Bool
same_id none none = true
same_id (some a) (some b) = str_eq a b
same_id _ _ = false

-- call.to_dict() == expected
abbrev pub same_call : Library → RoleToolCall → RoleToolCall → Bool
same_call l a b =
    str_eq a.name b.name
    && l.comparison.equal (obj a.arguments) (obj b.arguments)
    && a.round_index == b.round_index
    && a.call_index == b.call_index
    && same_id a.call_id b.call_id

-- The first of the reversed log.
abbrev pub first_invocation :
    Library → String → RoleToolCall → List RoleToolInvocation → Option RoleToolResult
first_invocation l role_name call [] = none
first_invocation l role_name call (i ∷ log) =
    if str_eq i.role_name role_name && same_call l i.call call
    then some i.result
    else first_invocation l role_name call log

abbrev pub fallback_of : Result InvokeError Value → Value
fallback_of (ok v) = v
fallback_of (err e) = null

abbrev pub found_or : Library → Value → Option RoleToolResult → RoleToolResult
found_or l fallback (some result) = result
found_or l fallback none =
    if require_json fallback then from_value l fallback else failure l "tool_error"

module _ {World : Type 0} where
  abbrev pub authorized_definitions :
      RoleToolBroker World → AgentProfile → RoleToolBroker World × List RoleToolDefinition
  authorized_definitions b profile =
      let (audited, names) = authorized_tools b profile in
      (audited, definitions_of b.definitions names)

  abbrev pub find_invocation :
      Library → RoleToolBroker World → AgentProfile → RoleToolCall → Option RoleToolResult
  find_invocation l b profile call = first_invocation l profile.name call (reverse b.invocations)

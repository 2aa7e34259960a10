-- ===== src/RoleToolLoop/Parse.antt =====
-- The messages of the conversation: `_parse_assistant`, `_tool_message` and the calls of a response.
use jarvis.Prelude.{
  ℕ, suc, ◌==◌, Bool, true, false, not, ◌&&◌, if◌then◌else◌, is_empty, List, [], ◌∷◌, Option, some,
  none, String, str_eq,
}
use jarvis.Json.{
  Value, Members, Elements, obj, arr, str, int, float, bool, null, no_member, member, no_element,
  element, item, pos,
}
use jarvis.Result.{Result, ok, err, ◌>>=◌}
use jarvis.RoleTools.Broker.{RoleToolCall, RoleToolResult}
use jarvis.RoleTools.Calls.{from_ollama}

-- The RoleToolLoopErrors, by their texts, and whatever the model's call raises.
pub data LoopError : Type 0 where
  model_invalid : LoopError
  response_invalid assistant_invalid content_invalid tool_calls_invalid content_empty : LoopError
  call_budget call_invalid result_budget output_budget elapsed_budget chat_raised : LoopError

-- bool(value)
abbrev is_true : Value → Bool
is_true (obj no_member) = false
is_true (obj _) = true
is_true (arr no_element) = false
is_true (arr _) = true
is_true (str s) = not (str_eq s "")
is_true (int (pos n)) = not (n == 0)
is_true (int _) = true
is_true (float bits) = not (bits == 0) && not (bits == 9223372036854775808)
is_true (bool b) = b
is_true null = false

abbrev pub is_text : Option Value → String → Bool
is_text (some (str s)) text = str_eq s text
is_text _ text = false

-- `content`
abbrev content_of : Option Value → Result LoopError String
content_of none = ok ""
content_of (some null) = ok ""
content_of (some (str s)) = ok s
content_of (some _) = err content_invalid

-- The list, of which each item is a Mapping.
abbrev mappings_of : Elements → Option (List Value)
mappings_of no_element = some []
mappings_of (element (obj members) rest) = elim (mappings_of rest) [
  | none ↦ none
  | some calls ↦ some (obj members ∷ calls)
]
mappings_of (element _ rest) = none

abbrev listed_calls : Option (List Value) → Result LoopError (List Value)
listed_calls none = err tool_calls_invalid
listed_calls (some calls) = ok calls

-- `raw_calls`
abbrev calls_of : Option Value → Result LoopError (List Value)
calls_of none = ok []
calls_of (some null) = ok []
calls_of (some (arr items)) = listed_calls (mappings_of items)
calls_of (some _) = err tool_calls_invalid

-- What a response says: the content and the calls.
pub record Turn : Type 0 where
  pub content : String
  pub raw_calls : List Value

abbrev parse_message : Option Value → Result LoopError Turn
parse_message (some (obj message)) =
    if not (is_text (item message "role") "assistant")
    then err assistant_invalid
    else (content_of (item message "content") >>= λ content.
        calls_of (item message "tool_calls") >>= λ raw_calls.
        ok (record { content = content; raw_calls = raw_calls }))
parse_message _ = err assistant_invalid

abbrev has_error : Option Value → Bool
has_error none = false
has_error (some e) = is_true e

-- `_parse_assistant`, of the message itself `assistant_message`.
unfoldable pub parse_assistant : Value → Result LoopError Turn
parse_assistant (obj response) =
    if has_error (item response "error")
    then err response_invalid
    else parse_message (item response "message")
parse_assistant _ = err response_invalid

abbrev elements_of : List Value → Elements
elements_of [] = no_element
elements_of (v ∷ vs) = element v (elements_of vs)

abbrev pub assistant_message : Turn → Value
assistant_message turn = obj (
    member "role" (str "assistant") (
      member "content" (str turn.content) (
        if is_empty turn.raw_calls
        then no_member
        else member "tool_calls" (arr (elements_of turn.raw_calls)) no_member)))

abbrev call_id_member : Option String → Members
call_id_member none = no_member
call_id_member (some call_id) = member "tool_call_id" (str call_id) no_member

-- `_tool_message`
abbrev pub tool_message : RoleToolCall → RoleToolResult → Value
tool_message call result = obj (
    member "role" (str "tool") (
      member "content" (str result.content)
        (member "tool_name" (str call.name) (call_id_member call.call_id))))

abbrev pub add_call : Option RoleToolCall → Option (List RoleToolCall) → Option (List RoleToolCall)
add_call (some call) (some calls) = some (call ∷ calls)
add_call _ _ = none

-- RoleToolCall.from_ollama of each, with its place; `none` is a RoleToolProtocolError.
abbrev pub parse_calls :
    (loads : String → Option Value)
    → (round_index call_index : ℕ) → List Value
    → Option (List RoleToolCall)
parse_calls loads round_index call_index [] = some []
parse_calls loads round_index call_index (raw ∷ rest) =
    add_call (from_ollama loads raw round_index call_index)
      (parse_calls loads round_index (suc call_index) rest)

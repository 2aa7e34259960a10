-- ===== src/RoleTools/Calls.antt =====
-- `RoleToolCall.from_ollama`, with the checks of a call.
use jarvis.Prelude.{ℕ, not, if◌then◌else◌, Option, some, none, String, str_eq}
use jarvis.Json.{Value, obj, str, null, no_member, item}
use jarvis.RoleTools.JsonSize.{require_json}
use jarvis.RoleTools.Broker.{RoleToolCall}

-- An optional name that is a non-empty string, if it is there. A missing one is None.
abbrev pub call_id_of : Option Value → Option (Option String)
call_id_of none = some none
call_id_of (some null) = some none
call_id_of (some (str s)) = if str_eq s "" then none else some (some s)
call_id_of (some _) = none

-- json.loads of a text; `none` is its error.
module _ (loads : String → Option Value) where
  -- The arguments, decoded if they are a text.
  abbrev pub decoded_arguments : Option Value → Option Value
  decoded_arguments none = some (obj no_member)
  decoded_arguments (some (str s)) = loads s
  decoded_arguments (some v) = some v

  -- `RoleToolCall.__post_init__`.
  unfoldable pub new_call :
      (name arguments : Option Value)
      → (round_index call_index : ℕ) → (id : Option Value) → Option RoleToolCall
  new_call (some (str name)) (some (obj arguments)) round_index call_index id =
      elim (call_id_of id) [
        | none ↦ none
        | some call_id ↦
            if str_eq name ""
            then none
            else if not (require_json (obj arguments))
            then none
            else some (record {
              name = name;
              arguments = arguments;
              round_index = round_index;
              call_index = call_index;
              call_id = call_id;
            })
      ]
  new_call _ _ round_index call_index id = none

  -- The `function` of a payload, and its id.
  unfoldable pub from_function :
      Option Value → (id : Option Value) → (round_index call_index : ℕ) → Option RoleToolCall
  from_function (some (obj function)) id round_index call_index =
      new_call (item function "name") (decoded_arguments (item function "arguments")) round_index
        call_index id
  from_function _ id round_index call_index = none

  -- `none` is a RoleToolProtocolError.
  unfoldable pub from_ollama : Value → (round_index call_index : ℕ) → Option RoleToolCall
  from_ollama (obj payload) round_index call_index =
      from_function (item payload "function") (item payload "id") round_index call_index
  from_ollama _ round_index call_index = none

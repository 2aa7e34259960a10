-- ===== src/PluginBroker/Admission.antt =====
-- `begin_lifecycle`, and the step that admits a request, under the lock of its session.
use jarvis.Prelude.{
  ℕ, ◌+◌, Bool, false, not, ◌||◌, if◌then◌else◌, ltb, leb, ◌==◌, List, [], ◌∷◌, any, elem, Option,
  some, none, String, str_eq,
}
use jarvis.Json.{Value, obj, str, int, null, pos, no_member, member}
use jarvis.EventBus.{Event}
use jarvis.RoleTools.Broker.{Library}
use jarvis.PluginBroker.JsonSize.{stable_json_size}
use jarvis.PluginBroker.Broker.{
  PluginBroker, PluginBrokerRequest, record_decision, set_generation, active_generation,
  is_active_generation, max_broker_calls, max_broker_exchange_bytes,
}

pub record PluginBrokerResult : Type 0 where
  pub request_id : String
  pub call_id : String
  pub plugin_id : String
  pub allowed : Bool
  pub result : Value
  pub error : String

pub record PluginBrokerSession : Type 0 where
  pub plugin_id : String
  pub request_id : String
  pub declared_permissions : List String
  pub generation : ℕ
  pub call_ids : List String
  pub call_count : ℕ
  pub exchange_bytes : ℕ
  pub events : List Event
  pub aborted : Bool
  pub committed : Bool

abbrev pub is_older : ℕ → Option ℕ → Bool
is_older generation none = false
is_older generation (some active) = ltb generation active

abbrev pub new_session :
    (plugin_id request_id : String)
    → (declared : List String) → (generation : ℕ) → PluginBrokerSession
new_session plugin_id request_id declared generation = record {
  plugin_id = plugin_id;
  request_id = request_id;
  declared_permissions = declared;
  generation = generation;
  call_ids = [];
  call_count = 0;
  exchange_bytes = 0;
  events = [];
  aborted = false;
  committed = false;
}

-- `none` is a ValueError.
unfoldable pub begin_lifecycle :
    PluginBroker
    → (plugin_id request_id : String) → (declared : List String) → (generation : ℕ)
    → Option (PluginBroker × PluginBrokerSession)
begin_lifecycle b plugin_id request_id declared generation =
    if str_eq plugin_id ""
      || str_eq request_id ""
      || generation == 0
      || any (λ p. str_eq p "") declared
    then none
    else if is_older generation (active_generation b plugin_id)
    then none
    else some (
      record b { active_generations = set_generation b.active_generations plugin_id generation },
      new_session plugin_id request_id declared generation,
    )

-- `request.to_dict()`
abbrev pub request_to_dict : PluginBrokerRequest → Value
request_to_dict r = obj (
    member "protocol_version" (int (pos 1)) (
      member "kind" (str "broker_request") (
        member "request_id" (str r.request_id) (
          member "call_id" (str r.call_id) (
            member "plugin_id" (str r.plugin_id) (
              member "capability" (str r.capability)
                (member "arguments" r.arguments no_member)))))))

-- `_deny`
abbrev pub deny :
    PluginBroker → PluginBrokerRequest → String → ℕ → PluginBroker × PluginBrokerResult
deny b request reason argument_bytes = (
  record_decision b request false reason argument_bytes,
  record {
    request_id = request.request_id;
    call_id = request.call_id;
    plugin_id = request.plugin_id;
    allowed = false;
    result = null;
    error = reason;
  },
)

-- A request is turned away, with the bytes of its arguments, or admitted.
pub data Admission : Type 0 where
  turned_away : (reason : String) → (argument_bytes : ℕ) → Admission
  admitted : (argument_bytes : ℕ) → Admission

-- The call is counted.
abbrev pub counted : PluginBrokerSession → PluginBrokerRequest → PluginBrokerSession
counted s request = record s {
  call_ids = request.call_id ∷ s.call_ids;
  call_count = s.call_count + 1;
}

-- The first step, once the sizes are known.
abbrev pub admit_sized :
    PluginBroker
    → PluginBrokerSession
    → PluginBrokerRequest
    → (argument_bytes exchange_bytes : ℕ) → PluginBrokerSession × Admission
admit_sized b s request argument_bytes exchange_bytes =
    if not (str_eq request.request_id s.request_id)
    then (s, turned_away "request_mismatch" argument_bytes)
    else if not (str_eq request.plugin_id s.plugin_id)
    then (s, turned_away "plugin_mismatch" argument_bytes)
    else if not (is_active_generation b s.plugin_id s.generation)
    then (s, turned_away "generation_mismatch" argument_bytes)
    else if elem request.call_id s.call_ids
    then (s, turned_away "duplicate_call_id" argument_bytes)
    else if leb max_broker_calls s.call_count
    then (s, turned_away "call_budget_exceeded" argument_bytes)
    else if ltb max_broker_exchange_bytes (s.exchange_bytes + exchange_bytes)
    then (counted s request, turned_away "exchange_budget_exceeded" argument_bytes)
    else (
      record (counted s request) { exchange_bytes = s.exchange_bytes + exchange_bytes },
      admitted argument_bytes,
    )

abbrev pub admit_with :
    PluginBroker
    → PluginBrokerSession
    → PluginBrokerRequest
    → Option ℕ
    → Option ℕ
    → PluginBrokerSession × Admission
admit_with b s request (some argument_bytes) (some exchange_bytes) =
    admit_sized b s request argument_bytes exchange_bytes
admit_with b s request _ _ = (s, turned_away "invalid_arguments" 0)

unfoldable pub admit :
    Library
    → PluginBroker
    → PluginBrokerSession
    → PluginBrokerRequest
    → PluginBrokerSession × Admission
admit l b s request =
    admit_with b s request (stable_json_size l request.arguments)
      (stable_json_size l (request_to_dict request))

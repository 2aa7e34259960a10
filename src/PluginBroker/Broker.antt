-- ===== src/PluginBroker/Broker.antt =====
-- `PluginBroker`: what it permits, its audit, and the handler of event.emit.
use jarvis.Prelude.{
  ℕ, Bool, false, not, ◌&&◌, ◌||◌, if◌then◌else◌, ltb, leb, ◌==◌, List, [], ◌∷◌, all, elem, length,
  Option, some, none, String, str_eq, codes,
}
use jarvis.Json.{Value, obj, str, null, item}
use jarvis.PluginBroker.JsonSize.{stable_json_size}
use jarvis.RoleTools.Broker.{Library, append_bounded, grants_of}

pub record PluginBrokerRequest : Type 0 where
  pub request_id : String
  pub call_id : String
  pub plugin_id : String
  pub capability : String
  pub arguments : Value

pub record PluginBrokerAuditEntry : Type 0 where
  pub request_id : String
  pub call_id : String
  pub plugin_id : String
  pub capability : String
  pub allowed : Bool
  pub reason : String
  pub argument_bytes : ℕ

-- How a handler ends: it returns, or raises a PluginCapabilityDenied with its reason, an
-- OverflowError, another PluginWorkerProtocolError, or another exception.
pub data PluginHandlerEnd : Type 0 where
  returned : Value → PluginHandlerEnd
  capability_denied : (reason : String) → PluginHandlerEnd
  overflow_error protocol_error other_error : PluginHandlerEnd

-- The handlers are known by whether they are registered; that of event.emit is the broker's own.
pub record PluginBroker : Type 0 where
  pub grants : List (String × List String)
  pub handlers : List String
  pub file_read_roots : List (String × String)
  pub file_read_registered : Bool
  pub file_list_registered : Bool
  pub config_registered : Bool
  pub audit_limit : ℕ
  pub audit : List PluginBrokerAuditEntry
  pub active_generations : List (String × ℕ)

abbrev pub max_broker_calls : ℕ
max_broker_calls = 32

abbrev pub max_broker_exchange_bytes : ℕ
max_broker_exchange_bytes = 65536

abbrev pub max_plugin_event_payload_bytes : ℕ
max_plugin_event_payload_bytes = 16384

-- MANIFEST_PERMISSION_BY_CAPABILITY.get
abbrev pub permission_of : String → Option String
permission_of capability =
    if str_eq capability "event.emit"
    then some "event_bus"
    else if str_eq capability "system.stats"
    then some "system_monitor"
    else if str_eq capability "file.read"
    then some "file_read"
    else if str_eq capability "file.list"
    then some "file_read"
    else if str_eq capability "config.get"
    then some "system_config"
    else if str_eq capability "llm.call"
    then some "llm_access"
    else if str_eq capability "network.get"
    then some "network"
    else none

abbrev is_alphanumeric : ℕ → Bool
is_alphanumeric c = leb 48 c && leb c 57 || leb 65 c && leb c 90 || leb 97 c && leb c 122

-- [A-Za-z0-9._:-]
abbrev is_name_code : ℕ → Bool
is_name_code c = is_alphanumeric c || c == 46 || c == 95 || c == 58 || c == 45

abbrev is_event_name : List ℕ → Bool
is_event_name [] = false
is_event_name (c ∷ cs) = is_alphanumeric c && all is_name_code cs && leb (length cs) 95

abbrev after_prefix : List ℕ → List ℕ → Option (List ℕ)
after_prefix [] cs = some cs
after_prefix (p ∷ prefix) [] = none
after_prefix (p ∷ prefix) (c ∷ cs) = if p == c then after_prefix prefix cs else none

-- _PLUGIN_EVENT_TYPE.fullmatch
abbrev pub is_plugin_event_type : String → Bool
is_plugin_event_type event_type = elim (after_prefix (codes "plugin.") (codes event_type)) [
  | none ↦ false
  | some name ↦ is_event_name name
]

abbrev pub or_null : Option Value → Value
or_null none = null
or_null (some v) = v

-- What the arguments of event.emit are: the type and the payload of an event. The payload is checked as
-- None if it is missing.
pub data EventArguments : Type 0 where
  rejected too_large : EventArguments
  accepted : (event_type : String) → (payload : Option Value) → EventArguments

abbrev pub sized_event : String → Option Value → Option ℕ → EventArguments
sized_event event_type payload none = rejected
sized_event event_type payload (some size) =
    if ltb max_plugin_event_payload_bytes size then too_large else accepted event_type payload

abbrev pub typed_event : Library → Option Value → Option Value → EventArguments
typed_event l (some (str event_type)) payload =
    if not (is_plugin_event_type event_type)
    then rejected
    else sized_event event_type payload (stable_json_size l (or_null payload))
typed_event l _ payload = rejected

-- `_validate_event_arguments`
abbrev pub validate_event_arguments : Library → Value → EventArguments
validate_event_arguments l (obj arguments) =
    typed_event l (item arguments "event_type") (item arguments "payload")
validate_event_arguments l _ = rejected

-- `_record`
abbrev pub record_decision : PluginBroker → PluginBrokerRequest → Bool → String → ℕ → PluginBroker
record_decision b request allowed reason argument_bytes = record b {
  audit = append_bounded b.audit_limit b.audit (record {
    request_id = request.request_id;
    call_id = request.call_id;
    plugin_id = request.plugin_id;
    capability = request.capability;
    allowed = allowed;
    reason = reason;
    argument_bytes = argument_bytes;
  });
}

abbrev generation_in : List (String × ℕ) → String → Option ℕ
generation_in [] plugin_id = none
generation_in (g ∷ generations) plugin_id =
    if str_eq g.0 plugin_id then some g.1 else generation_in generations plugin_id

abbrev pub set_generation : List (String × ℕ) → String → ℕ → List (String × ℕ)
set_generation [] plugin_id generation = (plugin_id, generation) ∷ []
set_generation (g ∷ generations) plugin_id generation =
    if str_eq g.0 plugin_id
    then (plugin_id, generation) ∷ generations
    else g ∷ set_generation generations plugin_id generation

abbrev pub active_generation : PluginBroker → String → Option ℕ
active_generation b plugin_id = generation_in b.active_generations plugin_id

abbrev is_generation : Option ℕ → ℕ → Bool
is_generation none generation = false
is_generation (some active) generation = active == generation

-- `_is_active_generation`
abbrev pub is_active_generation : PluginBroker → String → ℕ → Bool
is_active_generation b plugin_id generation =
    is_generation (active_generation b plugin_id) generation

abbrev has_root : List (String × String) → String → Bool
has_root [] plugin_id = false
has_root (r ∷ roots) plugin_id = str_eq r.0 plugin_id || has_root roots plugin_id

-- A capability that is fenced by the plugin's root: whether it is registered, and its denied reason.
abbrev rooted : PluginBroker → String → Option (Bool × String)
rooted b capability =
    if str_eq capability "file.read"
    then some (b.file_read_registered, "file_read_denied")
    else if str_eq capability "file.list"
    then some (b.file_list_registered, "file_list_denied")
    else if str_eq capability "config.get"
    then some (b.config_registered, "config_get_denied")
    else none

abbrev handler_fault : PluginBroker → String → String → Option (Bool × String) → Option String
handler_fault b plugin_id capability none =
    if elem capability b.handlers then none else some "capability_not_registered"
handler_fault b plugin_id capability (some (registered, reason)) =
    if not registered
    then some "capability_not_registered"
    else if not (has_root b.file_read_roots plugin_id)
    then some reason
    else none

-- Why the capability is not for this plugin, from `required_permission` on; `none` if it is.
abbrev pub fault_with :
    PluginBroker
    → (declared : List String) → (plugin_id capability : String) → Option String
    → Option String
fault_with b declared plugin_id capability none = some "capability_not_supported"
fault_with b declared plugin_id capability (some permission) =
    if not (elem permission declared)
    then some "capability_not_declared"
    else if not (elem capability (grants_of b.grants plugin_id))
    then some "capability_not_granted"
    else handler_fault b plugin_id capability (rooted b capability)

unfoldable pub capability_fault :
    PluginBroker → (declared : List String) → (plugin_id capability : String) → Option String
capability_fault b declared plugin_id capability =
    fault_with b declared plugin_id capability (permission_of capability)

-- ===== src/PluginBroker/Session.antt =====
-- What follows the admission of a request, with the handler before the second step; `commit_events`
-- and `abort`.
use Prim.Native.String.{◌++◌ as ◌+++◌}
use jarvis.Prelude.{
  ℕ, ◌+◌, Bool, true, false, not, ◌||◌, if◌then◌else◌, ltb, [], ◌∷◌, ◌++◌, Option, some, none,
  String, str_eq,
}
use jarvis.Json.{Value, obj, bool, null, no_member, member}
use jarvis.Result.{Result, ok, err}
use jarvis.EventBus.{Event, EventBus, record_many}
use jarvis.PluginBroker.JsonSize.{PluginSizeError, oversized, malformed, plugin_json_size}
use jarvis.RoleTools.Broker.{Library}
use jarvis.PluginBroker.Broker.{
  PluginBroker, PluginBrokerRequest, PluginHandlerEnd, returned, capability_denied, overflow_error,
  protocol_error, other_error, EventArguments, rejected, too_large, accepted,
  validate_event_arguments, record_decision, capability_fault, max_broker_exchange_bytes,
}
use jarvis.PluginBroker.Admission.{
  Admission, PluginBrokerResult, PluginBrokerSession, admit, admitted, deny, turned_away,
}

-- Between the steps: why the request is refused, if it is.
abbrev pub refusal : PluginBroker → PluginBrokerSession → PluginBrokerRequest → Option String
refusal b s request = elim request.arguments [
  | obj arguments ↦ capability_fault b s.declared_permissions s.plugin_id request.capability
  | _ ↦ some "invalid_arguments"
]

abbrev emitted : EventArguments → PluginHandlerEnd
emitted rejected = protocol_error
emitted too_large = overflow_error
emitted (accepted event_type payload) = returned (obj (member "published" (bool true) no_member))

-- The handler's end: that of event.emit is the broker's own, the others are given.
abbrev pub handler_end : Library → PluginBrokerRequest → PluginHandlerEnd → PluginHandlerEnd
handler_end l request other =
    if str_eq request.capability "event.emit"
    then emitted (validate_event_arguments l request.arguments)
    else other

-- What the event gets besides its type and payload: its time and its correlation id.
pub record Stamp : Type 0 where
  pub timestamp : String
  pub correlation_id : String

abbrev pub event_of : String → Stamp → String → Value → Event
event_of plugin_id stamp event_type payload = record {
  event_type = event_type;
  source = "plugin:" +++ plugin_id;
  payload = payload;
  timestamp = stamp.timestamp;
  correlation_id = stamp.correlation_id;
}

-- How the second step ends: the result stands, it is denied, or a KeyError is raised for a payload that
-- is missing.
pub data Settlement : Type 0 where
  stands key_error : Settlement
  denied : (reason : String) → Settlement

abbrev pub staged : PluginBrokerSession → Stamp → EventArguments → PluginBrokerSession × Settlement
staged s stamp (accepted event_type (some payload)) =
    (record s { events = s.events ++ event_of s.plugin_id stamp event_type payload ∷ [] }, stands)
staged s stamp _ = (s, key_error)

-- The event of event.emit is staged.
abbrev pub stage :
    Library
    → PluginBrokerSession
    → PluginBrokerRequest
    → Stamp
    → (is_event : Bool) → PluginBrokerSession × Settlement
stage l s request stamp false = (s, stands)
stage l s request stamp true = staged s stamp (validate_event_arguments l request.arguments)

-- The second step, for a result of this size.
abbrev pub settle_result :
    Library
    → PluginBrokerSession
    → PluginBrokerRequest
    → Stamp
    → (size : ℕ) → PluginBrokerSession × Settlement
settle_result l s request stamp size =
    let paid = record s { exchange_bytes = s.exchange_bytes + size } in
    if s.aborted || s.committed
    then (s, denied "session_closed")
    else if ltb max_broker_exchange_bytes (s.exchange_bytes + size)
    then (s, denied "result_too_large")
    else stage l paid request stamp (str_eq request.capability "event.emit")

abbrev pub settle_sized :
    Library
    → PluginBrokerSession
    → PluginBrokerRequest
    → Stamp
    → Result PluginSizeError ℕ
    → PluginBrokerSession × Settlement
settle_sized l s request stamp (err oversized) = (s, denied "result_too_large")
settle_sized l s request stamp (err malformed) = (s, denied "handler_result_invalid")
settle_sized l s request stamp (ok size) = settle_result l s request stamp size

-- The second step, from the handler's end on.
unfoldable pub settle :
    Library
    → PluginBrokerSession
    → PluginBrokerRequest
    → Stamp
    → PluginHandlerEnd
    → PluginBrokerSession × Settlement
settle l s request stamp (capability_denied reason) = (s, denied reason)
settle l s request stamp overflow_error = (s, denied "payload_too_large")
settle l s request stamp protocol_error = (s, denied "invalid_arguments")
settle l s request stamp other_error = (s, denied "handler_failed")
settle l s request stamp (returned result) =
    settle_sized l s request stamp (plugin_json_size l.float_size max_broker_exchange_bytes result)

abbrev pub close : PluginBrokerSession → PluginBrokerSession
close s = record s { events = []; committed = true }

-- `commit_events`; `acquired` tells whether the bus is locked before the deadline.
unfoldable pub commit_events :
    EventBus → PluginBrokerSession → (acquired : Bool) → (EventBus × PluginBrokerSession) × Bool
commit_events bus s acquired =
    let (recorded, done) = record_many bus s.events acquired in
    if s.aborted || s.committed
    then ((bus, s), false)
    else if not done
    then ((recorded, s), false)
    else ((recorded, close s), true)

unfoldable pub abort : PluginBrokerSession → PluginBrokerSession
abort s = record s { events = []; aborted = true }

abbrev result_of : PluginHandlerEnd → Value
result_of (returned result) = result
result_of _ = null

abbrev raise_or : PluginBroker × PluginBrokerResult → PluginBroker × Option PluginBrokerResult
raise_or (b, result) = (b, some result)

-- `none` is the KeyError.
abbrev pub answer :
    PluginBroker
    → PluginBrokerRequest
    → ℕ
    → Value
    → Settlement
    → PluginBroker × Option PluginBrokerResult
answer b request argument_bytes result stands = (
  record_decision b request true "allowed" argument_bytes,
  some (record {
    request_id = request.request_id;
    call_id = request.call_id;
    plugin_id = request.plugin_id;
    allowed = true;
    result = result;
    error = "";
  }),
)
answer b request argument_bytes result (denied reason) =
    raise_or (deny b request reason argument_bytes)
answer b request argument_bytes result key_error = (b, none)

-- The session and the broker after a request, and the answer.
abbrev pub handle_permitted :
    Library
    → PluginBroker
    → PluginBrokerSession
    → PluginBrokerRequest
    → Stamp
    → PluginHandlerEnd
    → ℕ
    → Option String
    → PluginBrokerSession × PluginBroker × Option PluginBrokerResult
handle_permitted l b s request stamp end argument_bytes (some reason) =
    let (after, result) = deny b request reason argument_bytes in (s, after, some result)
handle_permitted l b s request stamp end argument_bytes none =
    let (settled, settlement) = settle l s request stamp end in
    let (after, result) = answer b request argument_bytes (result_of end) settlement in
    (settled, after, result)

abbrev pub handle_admitted :
    Library
    → PluginBroker
    → PluginBrokerSession
    → PluginBrokerRequest
    → Stamp
    → PluginHandlerEnd
    → Admission
    → PluginBrokerSession × PluginBroker × Option PluginBrokerResult
handle_admitted l b s request stamp end (turned_away reason argument_bytes) =
    let (after, result) = deny b request reason argument_bytes in (s, after, some result)
handle_admitted l b s request stamp end (admitted argument_bytes) =
    handle_permitted l b s request stamp end argument_bytes (refusal b s request)

-- `handle`, with no other thread between its steps.
unfoldable pub handle :
    Library
    → PluginBroker
    → PluginBrokerSession
    → PluginBrokerRequest
    → Stamp
    → (other : PluginHandlerEnd) → PluginBrokerSession × PluginBroker × Option PluginBrokerResult
handle l b s request stamp other =
    let (entered, admission) = admit l b s request in
    handle_admitted l b entered request stamp (handler_end l request other) admission

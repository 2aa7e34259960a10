-- ===== src/PluginBroker/Samples.antt =====
-- A session that emits one event, and the theorems at it.
use jarvis.Prelude.{◌≤◌, ◌||◌, ◌≡◌, refl, true, false, [], ◌∷◌, some, none}
use jarvis.Json.{Value, obj, str, null, no_member, member}
use jarvis.EventBus.{EventBus, new_bus}
use jarvis.PluginBroker.JsonSize.{
  plugin_json_size, plugin_visit, plugin_add, plugin_add_string, plugin_add_chars, is_plugin_json,
  is_bounded_int,
}
use jarvis.RoleTools.Broker.{Library}
use jarvis.PluginBroker.Broker.{
  PluginBroker, PluginBrokerRequest, PluginHandlerEnd, returned, other_error, capability_fault,
  max_broker_calls, max_broker_exchange_bytes,
}
use jarvis.PluginBroker.Admission.{PluginBrokerSession, new_session, begin_lifecycle, admit}
use jarvis.PluginBroker.Session.{Stamp, refusal, settle, commit_events, handle}
use jarvis.PluginBroker.Authorization.{is_allowed, IsAdmissible, IsPermitted, handle-IsPermitted}
use jarvis.PluginBroker.Outbox.{IsDistinct}
use jarvis.PluginBroker.Threads.{Trace, Reach, begun, admits, settles}
use jarvis.PluginBroker.Trace.{Reach-IsValid}

abbrev library : Library
library = record {
  dumps = λ v. "{}";
  float_size = λ bits. 3;
  comparison = record { equal = λ a b. false; less = λ a b. false };
}

abbrev broker : PluginBroker
broker = record {
  grants = ("event-logger", "event.emit" ∷ []) ∷ [];
  handlers = "event.emit" ∷ [];
  file_read_roots = [];
  file_read_registered = false;
  file_list_registered = false;
  config_registered = false;
  audit_limit = 4;
  audit = [];
  active_generations = [];
}

abbrev running : PluginBroker
running = record broker { active_generations = ("event-logger", 1) ∷ [] }

abbrev session : PluginBrokerSession
session = new_session "event-logger" "r1" ("event_bus" ∷ []) 1

abbrev session_begun :
    begin_lifecycle broker "event-logger" "r1" ("event_bus" ∷ []) 1 ≡ some (running, session)
unfolding begin_lifecycle
session_begun = refl

abbrev emit : Value → PluginBrokerRequest
emit arguments = record {
  request_id = "r1";
  call_id = "c1";
  plugin_id = "event-logger";
  capability = "event.emit";
  arguments = arguments;
}

abbrev ready : PluginBrokerRequest
ready = emit (obj (member "event_type" (str "plugin.ready") (member "payload" null no_member)))

abbrev stamp : Stamp
stamp = record { timestamp = "2026-01-01T00:00:00"; correlation_id = "0" }

abbrev published : PluginHandlerEnd
published = returned (obj no_member)

abbrev entered : PluginBrokerSession
entered = (admit library running session ready).0

abbrev settled : PluginBrokerSession
settled = (settle library entered ready stamp published).0

abbrev permitted : refusal running entered ready ≡ none
unfolding admit capability_fault is_plugin_json is_bounded_int
permitted = refl

abbrev bus : EventBus
bus = new_bus 4

abbrev settled-Reach :
    Reach library settled (record { bus = bus; calls = "c1" ∷ []; dropped = false })
unfolding admit new_bus is_plugin_json is_bounded_int
settled-Reach =
    settles
      (admits
        (begun broker running "event-logger" "r1" ("event_bus" ∷ []) 1 session bus session_begun tt)
        running ready)
      running ready stamp published permitted

Reach-IsValid_example :
    (1 ≤ max_broker_calls)
    × IsDistinct ("c1" ∷ [])
    × (settled.exchange_bytes ≤ max_broker_exchange_bytes)
    × ((settled.aborted || settled.committed) ≡ true → settled.events ≡ [])
Reach-IsValid_example = Reach-IsValid library settled-Reach

abbrev committed : Trace
committed = record {
  bus = (commit_events bus settled true).0.0;
  calls = "c1" ∷ [];
  dropped = false;
}

emitted :
    settled.events
    ≡ record {
      event_type = "plugin.ready";
      source = "plugin:event-logger";
      payload = null;
      timestamp = "2026-01-01T00:00:00";
      correlation_id = "0";
    }
      ∷ []
unfolding settle admit plugin_json_size plugin_visit plugin_add plugin_add_string plugin_add_chars
    is_plugin_json is_bounded_int
emitted = refl

-- A request without a payload passes the checks, and raises.
no_payload :
    (handle library running session
      (emit (obj (member "event_type" (str "plugin.ready") no_member)))
      stamp
      other_error).2
    ≡ none
unfolding handle settle admit capability_fault plugin_json_size plugin_visit plugin_add
    plugin_add_string plugin_add_chars is_plugin_json is_bounded_int
no_payload = refl

abbrev ready_allowed : is_allowed (handle library running session ready stamp other_error).2 ≡ true
unfolding handle settle admit capability_fault plugin_json_size plugin_visit plugin_add
    plugin_add_string plugin_add_chars is_plugin_json is_bounded_int
ready_allowed = refl

handle-IsPermitted_example :
    IsAdmissible running session ready
    × IsPermitted running ("event_bus" ∷ []) "event-logger" "event.emit"
handle-IsPermitted_example =
    handle-IsPermitted library running session ready stamp other_error ready_allowed

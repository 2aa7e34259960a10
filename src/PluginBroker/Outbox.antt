-- ===== src/PluginBroker/Outbox.antt =====
-- A session under any interleaving of the steps of its threads: its budgets, and what it publishes.
use Prim.Native.String.{◌++◌ as ◌+++◌}
use jarvis.Prelude.{
  ℕ, ◌+◌, ◌≤◌, ◌≡◌, inl, inr, refl, Bool, true, false, Bool-cases, ◌||◌, if◌then◌else◌, ltb, leb,
  List, [], ◌∷◌, ◌++◌, All, elem, length, Option, some, none, String, str_eq, arith,
}
use jarvis.Json.{Value, obj, str, item}
use jarvis.Result.{Result, ok, err}
use jarvis.EventBus.{Event}
use jarvis.PluginBroker.JsonSize.{
  stable_json_size, PluginSizeError, oversized, malformed, plugin_json_size,
}
use jarvis.RoleTools.Broker.{Library}
use jarvis.PluginBroker.Broker.{
  PluginBroker, PluginBrokerRequest, PluginHandlerEnd, returned, capability_denied, overflow_error,
  protocol_error, other_error, EventArguments, rejected, too_large, accepted, is_plugin_event_type,
  or_null, sized_event, typed_event, validate_event_arguments, is_active_generation,
  max_plugin_event_payload_bytes, max_broker_calls, max_broker_exchange_bytes,
}
use jarvis.PluginBroker.Admission.{
  PluginBrokerSession, counted, admit_sized, admit_with, admit, request_to_dict,
}
use jarvis.PluginBroker.Session.{
  Stamp, event_of, Settlement, denied, staged, stage, settle_result, settle_sized, settle,
}

module _ (l : Library) where
  -- An event of a plugin: its name has the plugin's prefix, and its payload is bounded.
  abbrev pub IsPluginEvent : (plugin_id : String) → Event → Type 0
  IsPluginEvent plugin_id e =
      (e.source ≡ "plugin:" +++ plugin_id)
      × (is_plugin_event_type e.event_type ≡ true)
      × ((size : ℕ) × (stable_json_size l e.payload ≡ some size)
          × (size ≤ max_plugin_event_payload_bytes))

  abbrev Accepts : EventArguments → Type 0
  Accepts (accepted event_type payload) =
      (is_plugin_event_type event_type ≡ true)
      × ((size : ℕ) × (stable_json_size l (or_null payload) ≡ some size)
          × (size ≤ max_plugin_event_payload_bytes))
  Accepts _ = Unit

  sized_event-Accepts :
      (event_type : String) (payload : Option Value) (size : Option ℕ)
      → is_plugin_event_type event_type ≡ true
      → stable_json_size l (or_null payload) ≡ size
      → Accepts (sized_event event_type payload size)
  sized_event-Accepts event_type payload none named h = tt
  sized_event-Accepts event_type payload (some size) named h =
      elim (Bool-cases (ltb max_plugin_event_payload_bytes size)) [
        | inl large ↦ rw large tt
        | inr fits ↦ rw fits (named, (size, h, ground (arith, fits)))
      ]

  typed_event-Accepts :
      (event_type payload : Option Value) → Accepts (typed_event l event_type payload)
  typed_event-Accepts (some (str event_type)) payload =
      elim (Bool-cases (is_plugin_event_type event_type)) [
        | inl named ↦ rw named (
            sized_event-Accepts event_type payload (stable_json_size l (or_null payload)) named
              refl)
        | inr other ↦ rw other tt
      ]
  typed_event-Accepts _ payload = tt

  validate_event_arguments-Accepts :
      (arguments : Value) → Accepts (validate_event_arguments l arguments)
  validate_event_arguments-Accepts (obj arguments) =
      typed_event-Accepts (item arguments "event_type") (item arguments "payload")
  validate_event_arguments-Accepts _ = tt

  All-snoc :
      {A : Type 0} (P : A → Type 0) (xs : List A) (x : A) → All P xs → P x → All P (xs ++ x ∷ [])
  All-snoc P [] x h p = (p, tt)
  All-snoc P (y ∷ xs) x (q, h) p = (q, All-snoc P xs x h p)

  pub All-append :
      {A : Type 0} (P : A → Type 0) (xs ys : List A) → All P xs → All P ys → All P (xs ++ ys)
  All-append P [] ys h k = k
  All-append P (x ∷ xs) ys (p, h) k = (p, All-append P xs ys h k)

-- The ways out of the first step.
pub admit_sized-elim {ℓ} :
    (P : PluginBrokerSession → Type ℓ) (b : PluginBroker) (s : PluginBrokerSession)
    (request : PluginBrokerRequest) (argument_bytes exchange_bytes : ℕ)
    → P s
    → (elem request.call_id s.call_ids ≡ false
        → leb max_broker_calls s.call_count ≡ false
        → P (counted s request))
    → (elem request.call_id s.call_ids ≡ false
        → leb max_broker_calls s.call_count ≡ false
        → ltb max_broker_exchange_bytes (s.exchange_bytes + exchange_bytes) ≡ false
        → P (record (counted s request) { exchange_bytes = s.exchange_bytes + exchange_bytes }))
    → P (admit_sized b s request argument_bytes exchange_bytes).0
admit_sized-elim P b s request argument_bytes exchange_bytes same over within =
    elim (Bool-cases (str_eq request.request_id s.request_id)) [
      | inr a ↦ rw a same
      | inl a ↦ elim (Bool-cases (str_eq request.plugin_id s.plugin_id)) [
        | inr c ↦ rw (a, c) same
        | inl c ↦ elim (Bool-cases (is_active_generation b s.plugin_id s.generation)) [
          | inr d ↦ rw (a, c, d) same
          | inl d ↦ elim (Bool-cases (elem request.call_id s.call_ids)) [
            | inl e ↦ rw (a, c, d, e) same
            | inr e ↦ elim (Bool-cases (leb max_broker_calls s.call_count)) [
              | inl f ↦ rw (a, c, d, e, f) same
              | inr f ↦
                  elim (Bool-cases
                    (ltb max_broker_exchange_bytes (s.exchange_bytes + exchange_bytes))) [
                      | inl g ↦ rw (a, c, d, e, f, g) (over e f)
                      | inr g ↦ rw (a, c, d, e, f, g) (within e f g)
                    ]
            ]
          ]
        ]
      ]
    ]

abbrev pub IsDistinct : List String → Type 0
IsDistinct [] = Unit
IsDistinct (x ∷ xs) = (elem x xs ≡ false) × IsDistinct xs

module _ (l : Library) where
  -- The budgets hold, the calls have different ids, and a closed session has no events.
  abbrev pub IsValid : PluginBrokerSession → Type 0
  IsValid s =
      (s.call_count ≤ max_broker_calls)
      × (length s.call_ids ≡ s.call_count)
      × IsDistinct s.call_ids
      × (s.exchange_bytes ≤ max_broker_exchange_bytes)
      × ((s.aborted || s.committed) ≡ true → s.events ≡ [])
      × All (IsPluginEvent l s.plugin_id) s.events

  admit_sized-IsValid :
      (b : PluginBroker) (s : PluginBrokerSession) (request : PluginBrokerRequest)
      (argument_bytes exchange_bytes : ℕ)
      → IsValid s
      → IsValid (admit_sized b s request argument_bytes exchange_bytes).0
  admit_sized-IsValid b s request argument_bytes exchange_bytes
        (calls, ids, distinct, bytes, closed, events) =
      admit_sized-elim IsValid b s request argument_bytes exchange_bytes
        (calls, ids, distinct, bytes, closed, events)
        (λ fresh room.
          (ground (arith, room), omega (arith, ids), (fresh, distinct), bytes, closed, events))
        (λ fresh room within. (
          ground (arith, room),
          omega (arith, ids),
          (fresh, distinct),
          ground (arith, within),
          closed,
          events,
        ))

  admit_with-IsValid :
      (b : PluginBroker) (s : PluginBrokerSession) (request : PluginBrokerRequest)
      (argument_bytes exchange_bytes : Option ℕ)
      → IsValid s
      → IsValid (admit_with b s request argument_bytes exchange_bytes).0
  admit_with-IsValid b s request (some m) (some n) v = admit_sized-IsValid b s request m n v
  admit_with-IsValid b s request (some m) none v = v
  admit_with-IsValid b s request none n v = v

  pub admit-IsValid :
      (b : PluginBroker) (s : PluginBrokerSession) (request : PluginBrokerRequest)
      → IsValid s
      → IsValid (admit l b s request).0
  unfolding admit
  admit-IsValid b s request v =
      admit_with-IsValid b s request (stable_json_size l request.arguments)
        (stable_json_size l (request_to_dict request)) v

  staged-IsValid :
      (s : PluginBrokerSession) (stamp : Stamp) (arguments : EventArguments)
      → Accepts l arguments
      → (s.aborted || s.committed) ≡ false
      → IsValid s
      → IsValid (staged s stamp arguments).0
  staged-IsValid s stamp rejected a is_open v = v
  staged-IsValid s stamp too_large a is_open v = v
  staged-IsValid s stamp (accepted event_type none) a is_open v = v
  staged-IsValid s stamp (accepted event_type (some payload)) (named, sized) is_open
        (calls, ids, distinct, bytes, closed, events) =
      (
        calls,
        ids,
        distinct,
        bytes,
        λ h. absurd (ground (arith, h, is_open)),
        All-snoc l (IsPluginEvent l s.plugin_id) s.events
            (event_of s.plugin_id stamp event_type payload) events (refl, named, sized),
      )

  stage-IsValid :
      (s : PluginBrokerSession) (request : PluginBrokerRequest) (stamp : Stamp) (is_event : Bool)
      → (s.aborted || s.committed) ≡ false
      → IsValid s
      → IsValid (stage l s request stamp is_event).0
  stage-IsValid s request stamp false is_open v = v
  stage-IsValid s request stamp true is_open v =
      staged-IsValid s stamp (validate_event_arguments l request.arguments)
        (validate_event_arguments-Accepts l request.arguments) is_open v

  guarded-IsValid :
      (shut over : Bool) (s : PluginBrokerSession) (x y : Settlement)
      (end : PluginBrokerSession × Settlement)
      → IsValid s
      → (shut ≡ false → over ≡ false → IsValid end.0)
      → IsValid (if shut then (s, x) else if over then (s, y) else end).0
  guarded-IsValid true over s x y end v h = v
  guarded-IsValid false true s x y end v h = v
  guarded-IsValid false false s x y end v h = h refl refl

  settle_result-IsValid :
      (s : PluginBrokerSession) (request : PluginBrokerRequest) (stamp : Stamp) (size : ℕ)
      → IsValid s
      → IsValid (settle_result l s request stamp size).0
  settle_result-IsValid s request stamp size (calls, ids, distinct, bytes, closed, events) =
      let paid = record s { exchange_bytes = s.exchange_bytes + size } in
      guarded-IsValid (s.aborted || s.committed)
        (ltb max_broker_exchange_bytes (s.exchange_bytes + size)) s (denied "session_closed")
        (denied "result_too_large")
        (stage l paid request stamp (str_eq request.capability "event.emit"))
        (calls, ids, distinct, bytes, closed, events)
        (λ is_open within.
          stage-IsValid paid request stamp (str_eq request.capability "event.emit") is_open
            (calls, ids, distinct, ground (arith, within), closed, events))

  settle_sized-IsValid :
      (s : PluginBrokerSession) (request : PluginBrokerRequest) (stamp : Stamp)
      (size : Result PluginSizeError ℕ)
      → IsValid s
      → IsValid (settle_sized l s request stamp size).0
  settle_sized-IsValid s request stamp (err oversized) v = v
  settle_sized-IsValid s request stamp (err malformed) v = v
  settle_sized-IsValid s request stamp (ok size) v = settle_result-IsValid s request stamp size v

  pub settle-IsValid :
      (s : PluginBrokerSession) (request : PluginBrokerRequest) (stamp : Stamp)
      (end : PluginHandlerEnd)
      → IsValid s
      → IsValid (settle l s request stamp end).0
  unfolding settle
  settle-IsValid s request stamp (capability_denied reason) v = v
  settle-IsValid s request stamp overflow_error v = v
  settle-IsValid s request stamp protocol_error v = v
  settle-IsValid s request stamp other_error v = v
  settle-IsValid s request stamp (returned result) v =
      settle_sized-IsValid s request stamp
        (plugin_json_size l.float_size max_broker_exchange_bytes result) v

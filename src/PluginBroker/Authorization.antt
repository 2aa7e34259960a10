-- ===== src/PluginBroker/Authorization.antt =====
-- What a session allows.
use jarvis.Prelude.{
  ℕ, ◌≡◌, refl, inl, inr, Bool, true, false, Bool-cases, not, if◌then◌else◌, List, Option, some,
  none, String, str_eq, elem, ltb, leb, ◌+◌,
}
use mathlib.Core.Path.{subst}
use jarvis.Json.{Value, obj}
use jarvis.RoleTools.Broker.{Library, grants_of}
use jarvis.PluginBroker.JsonSize.{stable_json_size}
use jarvis.PluginBroker.Broker.{
  PluginBroker, PluginBrokerRequest, PluginHandlerEnd, permission_of, fault_with, capability_fault,
  is_active_generation, max_broker_calls, max_broker_exchange_bytes,
}
use jarvis.PluginBroker.Admission.{
  PluginBrokerSession, PluginBrokerResult, Admission, turned_away, admitted, admit_sized,
  admit_with, admit, request_to_dict,
}
use jarvis.PluginBroker.Session.{
  Stamp, refusal, handler_end, handle_permitted, handle_admitted, handle,
}

-- The plugin has declared the permission of the capability, and the broker grants it the capability.
abbrev pub IsPermitted :
    PluginBroker → (declared : List String) → (plugin_id capability : String) → Type 0
IsPermitted b declared plugin_id capability =
    (permission : String) × (permission_of capability ≡ some permission)
    × (elem permission declared ≡ true)
    × (elem capability (grants_of b.grants plugin_id) ≡ true)

both_hold :
    (first second : Bool) (a b : String) (rest : Option String)
    → (if not first then some a else if not second then some b else rest) ≡ none
    → (first ≡ true) × (second ≡ true)
both_hold true true a b rest h = (refl, refl)
both_hold true false a b rest h = absurd cc
both_hold false second a b rest h = absurd cc

fault_with-IsPermitted :
    (b : PluginBroker) (declared : List String) (plugin_id capability : String)
    (required : Option String)
    → permission_of capability ≡ required
    → fault_with b declared plugin_id capability required ≡ none
    → IsPermitted b declared plugin_id capability
fault_with-IsPermitted b declared plugin_id capability none h k = absurd cc
fault_with-IsPermitted b declared plugin_id capability (some permission) h k =
    let (has, granted) =
      both_hold (elem permission declared) (elem capability (grants_of b.grants plugin_id))
        "capability_not_declared" "capability_not_granted" _ k in
    (permission, h, has, granted)

refusal-IsPermitted :
    (b : PluginBroker) (s : PluginBrokerSession) (id call plugin capability : String)
    (arguments : Value)
    → refusal b s (record {
      request_id = id;
      call_id = call;
      plugin_id = plugin;
      capability = capability;
      arguments = arguments;
    })
      ≡ none
    → IsPermitted b s.declared_permissions s.plugin_id capability
unfolding capability_fault
refusal-IsPermitted b s id call plugin capability (obj members) h =
    fault_with-IsPermitted b s.declared_permissions s.plugin_id capability
      (permission_of capability) refl h
refusal-IsPermitted b s id call plugin capability _ h = absurd cc

abbrev pub is_allowed : Option PluginBrokerResult → Bool
is_allowed none = false
is_allowed (some r) = r.allowed

handle_permitted-none :
    (l : Library) (b : PluginBroker) (s : PluginBrokerSession) (request : PluginBrokerRequest)
    (stamp : Stamp) (end : PluginHandlerEnd) (argument_bytes : ℕ) (fault : Option String)
    → is_allowed (handle_permitted l b s request stamp end argument_bytes fault).2 ≡ true
    → fault ≡ none
handle_permitted-none l b s request stamp end argument_bytes none h = refl
handle_permitted-none l b s request stamp end argument_bytes (some reason) h = absurd cc

-- The first step lets a request in that is the session's, of the active generation, and new.
abbrev pub IsAdmissible : PluginBroker → PluginBrokerSession → PluginBrokerRequest → Type 0
IsAdmissible b s request =
    (str_eq request.request_id s.request_id ≡ true)
    × (str_eq request.plugin_id s.plugin_id ≡ true)
    × (is_active_generation b s.plugin_id s.generation ≡ true)
    × (elem request.call_id s.call_ids ≡ false)

abbrev Enters :
    PluginBroker
    → PluginBrokerSession
    → PluginBrokerRequest
    → PluginBrokerSession
    → Admission
    → Type 0
Enters b s request entered (turned_away reason n) = Unit
Enters b s request entered (admitted n) =
    IsAdmissible b s request
    × (entered.declared_permissions ≡ s.declared_permissions)
    × (entered.plugin_id ≡ s.plugin_id)

admit_sized-Enters :
    (b : PluginBroker) (s : PluginBrokerSession) (request : PluginBrokerRequest) (m n : ℕ)
    → let end = admit_sized b s request m n in Enters b s request end.0 end.1
admit_sized-Enters b s request m n = elim (Bool-cases (str_eq request.request_id s.request_id)) [
  | inr a ↦ rw a tt
  | inl a ↦ elim (Bool-cases (str_eq request.plugin_id s.plugin_id)) [
    | inr c ↦ rw (a, c) tt
    | inl c ↦ elim (Bool-cases (is_active_generation b s.plugin_id s.generation)) [
      | inr d ↦ rw (a, c, d) tt
      | inl d ↦ elim (Bool-cases (elem request.call_id s.call_ids)) [
        | inl e ↦ rw (a, c, d, e) tt
        | inr e ↦ elim (Bool-cases (leb max_broker_calls s.call_count)) [
          | inl f ↦ rw (a, c, d, e, f) tt
          | inr f ↦ elim (Bool-cases (ltb max_broker_exchange_bytes (s.exchange_bytes + n))) [
            | inl g ↦ rw (a, c, d, e, f, g) tt
            | inr g ↦ rw (a, c, d, e, f, g) ((a, c, d, e), refl, refl)
          ]
        ]
      ]
    ]
  ]
]

admit_with-Enters :
    (b : PluginBroker) (s : PluginBrokerSession) (request : PluginBrokerRequest) (m n : Option ℕ)
    → let end = admit_with b s request m n in Enters b s request end.0 end.1
admit_with-Enters b s request (some m) (some n) = admit_sized-Enters b s request m n
admit_with-Enters b s request (some m) none = tt
admit_with-Enters b s request none n = tt

handle_admitted-IsPermitted :
    (l : Library) (b : PluginBroker) (s entered : PluginBrokerSession)
    (request : PluginBrokerRequest) (stamp : Stamp) (end : PluginHandlerEnd) (admission : Admission)
    → Enters b s request entered admission
    → is_allowed (handle_admitted l b entered request stamp end admission).2 ≡ true
    → IsAdmissible b s request × IsPermitted b s.declared_permissions s.plugin_id request.capability
handle_admitted-IsPermitted l b s entered request stamp end (turned_away reason n) h k = absurd cc
handle_admitted-IsPermitted l b s entered request stamp end (admitted n)
      (admissible, declared, plugin) k =
    let none_left =
      handle_permitted-none l b entered request stamp end n (refusal b entered request) k in
    let permitted =
      refusal-IsPermitted b entered request.request_id request.call_id request.plugin_id
        request.capability request.arguments none_left in
    (
      admissible,
      subst (λ d. IsPermitted b d s.plugin_id request.capability) declared
          (subst (λ p. IsPermitted b entered.declared_permissions p request.capability) plugin
            permitted),
    )

-- A request is answered as allowed only if it is of the session and of the plugin's active generation, its
-- call id is new, the plugin has declared the permission of the capability, and the capability is granted
-- to it.
pub handle-IsPermitted :
    (l : Library) (b : PluginBroker) (s : PluginBrokerSession) (request : PluginBrokerRequest)
    (stamp : Stamp) (other : PluginHandlerEnd)
    → is_allowed (handle l b s request stamp other).2 ≡ true
    → IsAdmissible b s request × IsPermitted b s.declared_permissions s.plugin_id request.capability
unfolding handle admit
handle-IsPermitted l b s request stamp other h =
    let end = admit l b s request in
    handle_admitted-IsPermitted l b s end.0 request stamp (handler_end l request other) end.1
      (admit_with-Enters b s request (stable_json_size l request.arguments)
        (stable_json_size l (request_to_dict request)))
      h

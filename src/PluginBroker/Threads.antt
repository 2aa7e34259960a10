-- ===== src/PluginBroker/Threads.antt =====
-- A session under any interleaving of the steps of its threads, with what happens around it.
use Prim.Native.String.{◌++◌ as ◌+++◌}
use jarvis.Prelude.{
  ℕ, ◌+◌, ◌≡◌, inl, inr, refl, sym, ap, Bool, true, false, Bool-cases, ◌||◌, if◌then◌else◌, ltb,
  ◌==◌, not, List, [], ◌∷◌, All, any, Option, some, none, String, str_eq, arith,
}
use mathlib.Core.Path.{subst}
use jarvis.Result.{Result, ok, err}
use jarvis.EventBus.{Event, EventBus, record_event, record_many}
use jarvis.PluginBroker.JsonSize.{
  stable_json_size, PluginSizeError, oversized, malformed, plugin_json_size,
}
use jarvis.RoleTools.Broker.{Library}
use jarvis.PluginBroker.Broker.{
  PluginBroker, PluginBrokerRequest, PluginHandlerEnd, returned, capability_denied, overflow_error,
  protocol_error, other_error, EventArguments, rejected, too_large, accepted,
  validate_event_arguments, max_broker_exchange_bytes, set_generation, active_generation,
}
use jarvis.PluginBroker.Admission.{
  Admission, admitted, turned_away, PluginBrokerSession, new_session, begin_lifecycle, is_older,
  admit_with, admit, request_to_dict,
}
use jarvis.PluginBroker.Session.{
  refusal, Stamp, staged, stage, settle_result, settle_sized, settle, commit_events, abort,
}
use jarvis.PluginBroker.Outbox.{IsValid, admit_sized-elim, admit-IsValid, settle-IsValid}

-- A value that two tests let pass.
passed :
    {A : Type 0} (first second : Bool) (v w : A)
    → ◌≡◌ {A = Option A} (if first then none else if second then none else some v) (some w)
    → v ≡ w
passed true second v w h = absurd cc
passed false true v w h = absurd cc
passed false false v w h = cc

pub begin_lifecycle-new :
    (before after : PluginBroker) (plugin_id request_id : String) (declared : List String)
    (generation : ℕ) (s : PluginBrokerSession)
    → begin_lifecycle before plugin_id request_id declared generation ≡ some (after, s)
    → s ≡ new_session plugin_id request_id declared generation
unfolding begin_lifecycle
begin_lifecycle-new before after plugin_id request_id declared generation s h =
    let started : PluginBroker × PluginBrokerSession = (
      record before {
        active_generations = set_generation before.active_generations plugin_id generation;
      },
      new_session plugin_id request_id declared generation,
    ) in
    let same =
      passed
        (str_eq plugin_id ""
          || str_eq request_id ""
          || generation == 0
          || any (λ p. str_eq p "") declared)
        (is_older generation (active_generation before plugin_id)) started (after, s) h in
    sym (ap (λ pair. pair.1) same)

-- An event that is not of the plugin.
abbrev pub is_foreign : (plugin_id : String) → Event → Bool
is_foreign plugin_id e = not (str_eq e.source ("plugin:" +++ plugin_id))

abbrev pub is_admitted : Admission → Bool
is_admitted (admitted argument_bytes) = true
is_admitted (turned_away reason argument_bytes) = false

-- What happens around a session: the bus that its commit goes to, the ids of the calls that were
-- admitted, and whether it was aborted before any commit.
pub record Trace : Type 0 where
  pub bus : EventBus
  pub calls : List String
  pub dropped : Bool

abbrev pub after_admission : Trace → PluginBrokerRequest → Admission → Trace
after_admission t request admission = record t {
  calls = if is_admitted admission then request.call_id ∷ t.calls else t.calls;
}

module _ (l : Library) where
  -- The sessions that threads reach, with what happened. The bus holds no event of the plugin at first,
  -- and what others publish is not of the plugin.
  pub data Reach : PluginBrokerSession → Trace → Type 0 where
    begun :
        (before after : PluginBroker) (plugin_id request_id : String) (declared : List String)
        (generation : ℕ) (s : PluginBrokerSession) (bus : EventBus)
        → begin_lifecycle before plugin_id request_id declared generation ≡ some (after, s)
        → All (λ e. is_foreign plugin_id e ≡ true) bus.history
        → Reach s (record { bus = bus; calls = []; dropped = false })
    admits :
        {s : PluginBrokerSession} {t : Trace}
        → Reach s t
        → (b : PluginBroker) (request : PluginBrokerRequest)
        → Reach (admit l b s request).0 (after_admission t request (admit l b s request).1)
    settles :
        {s : PluginBrokerSession} {t : Trace}
        → Reach s t
        → (b : PluginBroker) (request : PluginBrokerRequest) (stamp : Stamp)
          (end : PluginHandlerEnd)
        → refusal b s request ≡ none
        → Reach (settle l s request stamp end).0 t
    publishes :
        {s : PluginBrokerSession} {t : Trace}
        → Reach s t
        → (e : Event) → is_foreign s.plugin_id e ≡ true
        → Reach s (record t { bus = record_event t.bus e })
    commits :
        {s : PluginBrokerSession} {t : Trace}
        → Reach s t
        → (acquired : Bool)
        → Reach
            (commit_events t.bus s acquired).0.1
            (record t { bus = (commit_events t.bus s acquired).0.0 })
    aborts :
        {s : PluginBrokerSession} {t : Trace}
        → Reach s t
        → Reach (abort s) (record t { dropped = t.dropped || not s.committed })

  begun-IsValid :
      (before after : PluginBroker) (plugin_id request_id : String) (declared : List String)
      (generation : ℕ) (s : PluginBrokerSession)
      → begin_lifecycle before plugin_id request_id declared generation ≡ some (after, s)
      → IsValid l s
  begun-IsValid before after plugin_id request_id declared generation s h =
      let same = begin_lifecycle-new before after plugin_id request_id declared generation s h in
      subst (IsValid l) (sym same) (omega arith, refl, tt, omega arith, λ k. refl, tt)

  commit_events-IsValid :
      (bus : EventBus) (s : PluginBrokerSession) (acquired : Bool)
      → IsValid l s
      → IsValid l (commit_events bus s acquired).0.1
  unfolding commit_events
  commit_events-IsValid bus s acquired (calls, ids, distinct, bytes, closed, events) =
      elim (Bool-cases (s.aborted || s.committed)) [
        | inl shut ↦ rw shut (calls, ids, distinct, bytes, closed, events)
        | inr is_open ↦ elim (Bool-cases (record_many bus s.events acquired).1) [
          | inl done ↦ rw (is_open, done) (calls, ids, distinct, bytes, λ h. refl, tt)
          | inr late ↦ rw (is_open, late) (calls, ids, distinct, bytes, closed, events)
        ]
      ]

  abort-IsValid : (s : PluginBrokerSession) → IsValid l s → IsValid l (abort s)
  unfolding abort
  abort-IsValid s (calls, ids, distinct, bytes, closed, events) =
      (calls, ids, distinct, bytes, λ h. refl, tt)

  pub Reach-session : {s : PluginBrokerSession} {t : Trace} → Reach s t → IsValid l s
  Reach-session (begun before after plugin_id request_id declared generation s bus h foreign) =
      begun-IsValid before after plugin_id request_id declared generation s h
  Reach-session (admits r b request) = admit-IsValid l b _ request (Reach-session r)
  Reach-session (settles r b request stamp end permitted) =
      settle-IsValid l _ request stamp end (Reach-session r)
  Reach-session (publishes r e foreign) = Reach-session r
  Reach-session (commits {t = t} r acquired) =
      commit_events-IsValid t.bus _ acquired (Reach-session r)
  Reach-session (aborts r) = abort-IsValid _ (Reach-session r)

  -- What a step keeps: the plugin, and whether the session is committed or aborted.
  abbrev pub Keeps : PluginBrokerSession → PluginBrokerSession → Type 0
  Keeps s t = (t.plugin_id ≡ s.plugin_id) × (t.committed ≡ s.committed) × (t.aborted ≡ s.aborted)

  pub admit-Keeps :
      (b : PluginBroker) (s : PluginBrokerSession) (request : PluginBrokerRequest)
      → Keeps s (admit l b s request).0
  unfolding admit
  admit-Keeps b s request =
      sized (stable_json_size l request.arguments) (stable_json_size l (request_to_dict request))
    where
      sized : (m n : Option ℕ) → Keeps s (admit_with b s request m n).0
      sized (some m) (some n) =
          admit_sized-elim (Keeps s) b s request m n (refl, refl, refl) (λ e f. (refl, refl, refl))
            (λ e f g. (refl, refl, refl))
      sized (some m) none = (refl, refl, refl)
      sized none n = (refl, refl, refl)

  -- Settling a call keeps the calls too.
  abbrev pub Stays : PluginBrokerSession → PluginBrokerSession → Type 0
  Stays s t =
      (t.plugin_id ≡ s.plugin_id)
      × (t.committed ≡ s.committed)
      × (t.aborted ≡ s.aborted)
      × (t.call_ids ≡ s.call_ids)
      × (t.call_count ≡ s.call_count)

  staged-Stays :
      (s : PluginBrokerSession) (stamp : Stamp) (arguments : EventArguments)
      → Stays s (staged s stamp arguments).0
  staged-Stays s stamp rejected = (refl, refl, refl, refl, refl)
  staged-Stays s stamp too_large = (refl, refl, refl, refl, refl)
  staged-Stays s stamp (accepted event_type none) = (refl, refl, refl, refl, refl)
  staged-Stays s stamp (accepted event_type (some payload)) = (refl, refl, refl, refl, refl)

  stage-Stays :
      (s : PluginBrokerSession) (request : PluginBrokerRequest) (stamp : Stamp) (is_event : Bool)
      → Stays s (stage l s request stamp is_event).0
  stage-Stays s request stamp false = (refl, refl, refl, refl, refl)
  stage-Stays s request stamp true =
      staged-Stays s stamp (validate_event_arguments l request.arguments)

  settle_result-Stays :
      (s : PluginBrokerSession) (request : PluginBrokerRequest) (stamp : Stamp) (size : ℕ)
      → Stays s (settle_result l s request stamp size).0
  settle_result-Stays s request stamp size =
      let paid = record s { exchange_bytes = s.exchange_bytes + size } in
      elim (Bool-cases (s.aborted || s.committed)) [
        | inl shut ↦ rw shut (refl, refl, refl, refl, refl)
        | inr is_open ↦
            elim (Bool-cases (ltb max_broker_exchange_bytes (s.exchange_bytes + size))) [
              | inl over ↦ rw (is_open, over) (refl, refl, refl, refl, refl)
              | inr within ↦
                  rw (is_open, within)
                    (stage-Stays paid request stamp (str_eq request.capability "event.emit"))
            ]
      ]

  settle_sized-Stays :
      (s : PluginBrokerSession) (request : PluginBrokerRequest) (stamp : Stamp)
      (size : Result PluginSizeError ℕ)
      → Stays s (settle_sized l s request stamp size).0
  settle_sized-Stays s request stamp (err oversized) = (refl, refl, refl, refl, refl)
  settle_sized-Stays s request stamp (err malformed) = (refl, refl, refl, refl, refl)
  settle_sized-Stays s request stamp (ok size) = settle_result-Stays s request stamp size

  pub settle-Stays :
      (s : PluginBrokerSession) (request : PluginBrokerRequest) (stamp : Stamp)
      (end : PluginHandlerEnd)
      → Stays s (settle l s request stamp end).0
  unfolding settle
  settle-Stays s request stamp (capability_denied reason) = (refl, refl, refl, refl, refl)
  settle-Stays s request stamp overflow_error = (refl, refl, refl, refl, refl)
  settle-Stays s request stamp protocol_error = (refl, refl, refl, refl, refl)
  settle-Stays s request stamp other_error = (refl, refl, refl, refl, refl)
  settle-Stays s request stamp (returned result) =
      settle_sized-Stays s request stamp
        (plugin_json_size l.float_size max_broker_exchange_bytes result)

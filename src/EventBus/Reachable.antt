-- ===== src/EventBus/Reachable.antt =====
-- What holds of a bus after any sequence of its operations.
use jarvis.Prelude.{
  ℕ, ◌+◌, ◌-◌, ◌≤◌, String, ◌≡◌, refl, sym, ap, ◌∙◌, Bool, true, false, List, [], ◌∷◌, ◌++◌, arith,
  if◌then◌else◌, str_eq, ltb, ◌==◌, is_empty, List-cases, Bool-cases, inl, inr,
}
use mathlib.Core.List.{append-nil}
use jarvis.Json.{Value, int, pos}
use jarvis.EventBus.{
  Event, Subscriber, Table, EventBus, new_bus, subscribe, unsubscribe, subs_of, collect, notify,
  record_event, record_many, clear_history, destroy,
}
use jarvis.EventBus.History.{Bounded}
use jarvis.EventBus.Subscriptions.{
  count_id, count_once, subscribed, NoneEmpty, count_id-append, count_once-append,
  remove_sub-subscribed, remove_sub-removed, retain-subscribed, retain-NoneEmpty, subs_of-retain,
  count_subs_of_le, count_two_subs_of_le,
}

pub record IsValid (bus : EventBus) : Type 0 where
  pub bounded : Bounded bus
  pub fresh : (i : ℕ) → bus.sub_id_counter ≤ i → subscribed i bus.subscribers ≡ 0
  pub unique : (i : ℕ) → subscribed i bus.subscribers ≤ 1
  pub none_empty : NoneEmpty bus.subscribers

-- What the lock lets a caller do in one step.
pub data Step : EventBus → EventBus → Type 0 where
  subscribes :
      (b : EventBus) (t : String) (callback : ℕ) (once : Bool)
      → Step b (subscribe b t callback once).0
  unsubscribes : (b : EventBus) (sub_id : Value) → Step b (unsubscribe b sub_id).0
  records : (b : EventBus) (event : Event) → Step b (record_event b event)
  notifies : (b : EventBus) (event : Event) → Step b (notify b event).0
  records_many :
      (b : EventBus) (events : List Event) (acquired : Bool)
      → Step b (record_many b events acquired).0
  clears : (b : EventBus) → Step b (clear_history b)
  destroys : (b : EventBus) → Step b (destroy b)

pub data Reachable (max_history : ℕ) : EventBus → Type 0 where
  new : Reachable max_history (new_bus max_history)
  after : {b c : EventBus} → Reachable max_history b → Step b c → Reachable max_history c

-- One event's subscribers leave the table if they are `once`.
collect-subscribed :
    (i : ℕ) (t : String) (table : Table) (to_call : List Subscriber)
    → subscribed i (collect t (table, to_call)).0 + count_once i (subs_of t table)
      ≡ subscribed i table
collect-subscribed i t table to_call =
    ground (arith, retain-subscribed i t table, empty_once i (subs_of t table))
  where
    empty_once : (i : ℕ) (subs : List Subscriber) → is_empty subs ≡ true → count_once i subs ≡ 0
    empty_once i [] h = refl
    empty_once i (s ∷ subs) h = cc

collect-called :
    (t : String) (table : Table) (to_call : List Subscriber)
    → (collect t (table, to_call)).1 ≡ to_call ++ subs_of t table
collect-called t table to_call = elim (List-cases (subs_of t table)) [
  | inl e ↦ rw e (sym (append-nil to_call))
  | inr (s, subs, e) ↦ rw e
]

collect-NoneEmpty :
    (t : String) (table : Table) (to_call : List Subscriber)
    → NoneEmpty table
    → NoneEmpty (collect t (table, to_call)).0
collect-NoneEmpty t table to_call h = elim (Bool-cases (is_empty (subs_of t table))) [
  | inl e ↦ rw e h
  | inr e ↦ rw e (retain-NoneEmpty t table h)
]

collect-subs_of :
    (t u : String) (table : Table)
    → str_eq t u ≡ false
    → subs_of u (collect t (table, [])).0 ≡ subs_of u table
collect-subs_of t u table h = ground (arith, subs_of-retain t u table h)

-- The subscribers that an event is meant for, in the order of the calls.
abbrev pub meant_for : String → Table → List Subscriber
meant_for t table = subs_of t table ++ (if str_eq t "*" then [] else subs_of "*" table)

notify-called :
    (bus : EventBus) (event : Event)
    → (notify bus event).1 ≡ meant_for event.event_type bus.subscribers
unfolding notify
notify-called bus event = elim (Bool-cases (str_eq event.event_type "*")) [
  | inl e ↦ rw e (collect-called event.event_type bus.subscribers [] ∙ sym (append-nil _))
  | inr e ↦
      let first = collect event.event_type (bus.subscribers, []) in
      rw e (
        collect-called "*" first.0 first.1
        ∙ cc (
          collect-called event.event_type bus.subscribers [],
          collect-subs_of event.event_type "*" bus.subscribers e,
        ))
]

pub notify-subscribed :
    (i : ℕ) (bus : EventBus) (event : Event)
    → subscribed i (notify bus event).0.subscribers + count_once i (notify bus event).1
      ≡ subscribed i bus.subscribers
unfolding notify
notify-subscribed i bus event =
    let t = event.event_type in
    let first = collect t (bus.subscribers, []) in
    let called_first = ap (count_once i) (collect-called t bus.subscribers []) in
    let called_any = ap (count_once i) (collect-called "*" first.0 first.1) in
    elim (Bool-cases (str_eq t "*")) [
      | inl e ↦ rw e (omega (arith, called_first, collect-subscribed i t bus.subscribers []))
      | inr e ↦ rw e (
          omega (
            arith,
            called_first,
            called_any,
            collect-subscribed i t bus.subscribers [],
            collect-subscribed i "*" first.0 first.1,
            count_once-append i first.1 (subs_of "*" first.0),
          ))
    ]

pub notify-NoneEmpty :
    (bus : EventBus) (event : Event)
    → NoneEmpty bus.subscribers
    → NoneEmpty (notify bus event).0.subscribers
unfolding notify
notify-NoneEmpty bus event h =
    let t = event.event_type in
    let first = collect t (bus.subscribers, []) in
    let kept = collect-NoneEmpty t bus.subscribers [] h in
    elim (Bool-cases (str_eq t "*")) [
      | inl e ↦ rw e kept
      | inr e ↦ rw e (collect-NoneEmpty "*" first.0 first.1 kept)
    ]

count_meant_for-le :
    (i : ℕ) (t : String) (table : Table) → count_id i (meant_for t table) ≤ subscribed i table
count_meant_for-le i t table = elim (Bool-cases (str_eq t "*")) [
  | inl e ↦ rw (e, append-nil) (count_subs_of_le i t table)
  | inr e ↦ rw e (
      omega (
        arith,
        count_two_subs_of_le i t "*" table e,
        count_id-append i (subs_of t table) (subs_of "*" table),
      ))
]

-- One event calls the subscribers of its type and then those of "*", in the order in which they
-- subscribed, nobody twice; of those it calls exactly the `once` ones are unsubscribed, and no
-- other subscription changes. It holds of every valid bus.
pub notify_lem :
    (bus : EventBus) (event : Event)
    → IsValid bus
    → ((notify bus event).1 ≡ meant_for event.event_type bus.subscribers)
      × ((i : ℕ)
          → (count_id i (notify bus event).1 ≤ 1)
            × (subscribed i (notify bus event).0.subscribers
                ≡ subscribed i bus.subscribers - count_once i (notify bus event).1))
notify_lem bus event v = (
  notify-called bus event,
  λ i. (
    omega (
      arith,
      ap (count_id i) (notify-called bus event),
      count_meant_for-le i event.event_type bus.subscribers,
      v.unique i,
    ),
    omega (arith, notify-subscribed i bus event),
  ),
)

-- `unsubscribe` takes out the subscription with the id, if there is one, and no other, and tells
-- whether there was one.
pub unsubscribe_lem :
    (bus : EventBus) (n : ℕ)
    → ((unsubscribe bus (int (pos n))).1 ≡ ltb 0 (subscribed n bus.subscribers))
      × ((i : ℕ)
          → subscribed i (unsubscribe bus (int (pos n))).0.subscribers
            ≡ (if n == i then 0 else subscribed i bus.subscribers))
unfolding unsubscribe
unsubscribe_lem bus n =
    (remove_sub-removed n bus.subscribers, λ i. remove_sub-subscribed i n bus.subscribers)

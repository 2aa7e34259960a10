-- ===== src/EventBus.antt =====
-- src/core/kernel/event_bus.py: subscriptions and the bounded history of events. A method runs
-- under the bus's lock, so it is one step; callbacks are called after the lock is released, and
-- what they do to the bus is further steps.
pub mod History
pub mod Subscriptions
pub mod Reachable
pub mod Roundtrip
mod Samples
use jarvis.Prelude.{
  ℕ, ◌+◌, ◌-◌, String, Bool, true, false, not, ◌||◌, List, [], ◌∷◌, ◌++◌, Option, none, some,
  if◌then◌else◌, str_eq, ◌==◌, length, drop, select, is_empty,
}
use jarvis.Json.{Value, int, pos, negsuc}

pub record Event : Type 0 where
  pub event_type : String
  pub source : String
  pub payload : Value
  pub timestamp : String
  pub correlation_id : String

-- The callable is known by an identity.
pub record Subscriber : Type 0 where
  pub id : ℕ
  pub callback : ℕ
  pub once : Bool

-- A dictionary from event types, in the order of insertion.
abbrev pub Table : Type 0
Table = List (String × List Subscriber)

pub record EventBus : Type 0 where
  pub max_history : ℕ
  pub history : List Event
  pub subscribers : Table
  pub sub_id_counter : ℕ

unfoldable pub new_bus : ℕ → EventBus
new_bus max_history = record {
  max_history = max_history;
  history = [];
  subscribers = [];
  sub_id_counter = 0;
}

-- xs[-n:] for a positive n.
unfoldable pub last {ℓ} : {A : Type ℓ} → ℕ → List A → List A
last n xs = drop (length xs - n) xs

-- self._subscribers.setdefault(event_type, []).append(sub)
unfoldable pub add_sub : String → Subscriber → Table → Table
add_sub t sub [] = (t, sub ∷ []) ∷ []
add_sub t sub ((u, subs) ∷ table) =
    if str_eq u t then (u, subs ++ sub ∷ []) ∷ table else (u, subs) ∷ add_sub t sub table

unfoldable pub subscribe : EventBus → String → ℕ → Bool → EventBus × ℕ
unfolding add_sub
subscribe bus t callback once =
    let sub_id = bus.sub_id_counter in
    let sub : Subscriber = record { id = sub_id; callback = callback; once = once } in
    (
      record bus { sub_id_counter = sub_id + 1; subscribers = add_sub t sub bus.subscribers },
      sub_id,
    )

abbrev pub has_id : Value → Subscriber → Bool
has_id (int (pos n)) sub = sub.id == n
has_id _ sub = false

-- The loop of `unsubscribe`: the new table, and whether anything was removed.
unfoldable pub remove_sub : Value → Table → Table × Bool
remove_sub sub_id [] = ([], false)
remove_sub sub_id ((u, subs) ∷ table) =
    let kept = select (λ s. not (has_id sub_id s)) subs in
    let (rest, removed) = remove_sub sub_id table in
    (if is_empty kept then rest else (u, kept) ∷ rest, not (length kept == length subs) || removed)

unfoldable pub unsubscribe : EventBus → Value → EventBus × Bool
unfolding remove_sub
unsubscribe bus (int n) =
    let (table, removed) = remove_sub (int n) bus.subscribers in
    (record bus { subscribers = table }, removed)
unsubscribe bus _ = (bus, false)

-- self._subscribers.get(t), with no entry as an empty list.
unfoldable pub subs_of : String → Table → List Subscriber
subs_of t [] = []
subs_of t ((u, subs) ∷ table) = if str_eq u t then subs else subs_of t table

-- What stays of the entry of `t`: its subscribers that are not `once`, and no entry if none.
unfoldable pub retain : String → Table → Table
retain t [] = []
retain t ((u, subs) ∷ table) =
    let kept = select (λ s. not s.once) subs in
    if str_eq u t
    then if is_empty kept then table else (u, kept) ∷ table
    else (u, subs) ∷ retain t table

-- One round of the loop over `subscription_types`.
abbrev pub collect : String → Table × List Subscriber → Table × List Subscriber
collect t (table, to_call) =
    let subscribers = subs_of t table in
    if is_empty subscribers then (table, to_call) else (retain t table, to_call ++ subscribers)

-- `_notify`: the bus, and the subscribers that are called once the lock is released.
unfoldable pub notify : EventBus → Event → EventBus × List Subscriber
unfolding subs_of retain
notify bus event =
    let first = collect event.event_type (bus.subscribers, []) in
    let (table, to_call) = if str_eq event.event_type "*" then first else collect "*" first in
    (record bus { subscribers = table }, to_call)

-- `deque.append` with a bound.
unfoldable pub record_event : EventBus → Event → EventBus
unfolding last
record_event bus event = record bus { history = last bus.max_history (bus.history ++ event ∷ []) }

-- `publish`, and `emit` of an event whose source is "event_bus".
unfoldable pub publish : EventBus → Event → EventBus × List Subscriber
unfolding notify record_event
publish bus event = notify (record_event bus event) event

-- `acquired` tells whether the lock is taken before the deadline; without a deadline it is true.
unfoldable pub record_many : EventBus → List Event → Bool → EventBus × Bool
unfolding last
record_many bus events acquired =
    if acquired
    then (record bus { history = last bus.max_history (bus.history ++ events) }, true)
    else (bus, false)

abbrev pub of_type : Option String → Event → Bool
of_type none event = true
of_type (some t) event = str_eq event.event_type t

-- `none` is the ValueError for a limit that is no non-negative int.
unfoldable pub get_history : EventBus → Option String → Value → Option (List Event)
unfolding last
get_history bus t (int (pos limit)) =
    if limit == 0 then some [] else some (last limit (select (of_type t) bus.history))
get_history bus t _ = none

unfoldable pub clear_history : EventBus → EventBus
clear_history bus = record bus { history = [] }

unfoldable pub get_subscription_count : EventBus → ℕ
get_subscription_count bus = sizes bus.subscribers
  where
    sizes : Table → ℕ
    sizes [] = 0
    sizes ((u, subs) ∷ table) = length subs + sizes table

unfoldable pub destroy : EventBus → EventBus
destroy bus = record bus { subscribers = []; history = [] }

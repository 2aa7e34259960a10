-- ===== src/EventBus/Samples.antt =====
-- A bus with two subscriptions, and the theorems at it.
use jarvis.Prelude.{
  ℕ, ◌-◌, ◌≤◌, ◌+◌, ◌≡◌, min, refl, true, false, List, [], ◌∷◌, ◌++◌, if◌then◌else◌, ltb, ◌==◌,
  length, select, some,
}
use jarvis.Json.{null, int, pos}
use jarvis.EventBus.{
  Event, EventBus, new_bus, subscribe, unsubscribe, notify, record_many, get_history, of_type,
}
use jarvis.EventBus.History.{publish_all, record_many-publish_all, get_history_lem}
use jarvis.EventBus.Subscriptions.{count_id, count_once, subscribed}
use jarvis.EventBus.Reachable.{
  IsValid, Reachable, subscribes, new, after, meant_for, notify_lem, unsubscribe_lem,
}
use jarvis.EventBus.Roundtrip.{Reachable-IsValid, unsubscribe-subscribe}

abbrev started : Event
started = record {
  event_type = "system";
  source = "event_bus";
  payload = null;
  timestamp = "2026-01-01T00:00:00";
  correlation_id = "0";
}

-- Subscription 0 is to every event, subscription 1 once to "system".
abbrev bus : EventBus
bus = (subscribe (subscribe (new_bus 2) "*" 7 false).0 "system" 8 true).0

bus-Reachable : Reachable 2 bus
bus-Reachable = after (after new (subscribes _ "*" 7 false)) (subscribes _ "system" 8 true)

-- The specific subscriber is called first, and is gone afterwards.
bus-notify : notify bus started ≡ (
  record (subscribe (new_bus 2) "*" 7 false).0 { sub_id_counter = 2 },
  record { id = 1; callback = 8; once = true } ∷ record { id = 0; callback = 7; once = false } ∷ [],
)
unfolding notify subscribe new_bus
bus-notify = refl

bus-IsValid : IsValid bus
bus-IsValid = Reachable-IsValid bus-Reachable

Reachable-IsValid_example : IsValid bus
Reachable-IsValid_example = Reachable-IsValid bus-Reachable

abbrev three : List Event
three = started ∷ started ∷ started ∷ []

record_many-publish_all_example :
    ((record_many bus three true).0.history ≡ (publish_all bus three).history)
    × ((record_many bus three true).1 ≡ true)
    × ((record_many bus three true).0.subscribers ≡ bus.subscribers)
record_many-publish_all_example = record_many-publish_all bus three true bus-IsValid.bounded

abbrev filled : EventBus
filled = record bus { history = started ∷ started ∷ [] }

get_history_lem_example :
    (found : List Event) × (get_history filled (some "system") (int (pos 1)) ≡ some found)
    × (length found ≡ min 1 (length (select (of_type (some "system")) filled.history)))
    × ((earlier : List Event) × (earlier ++ found
          ≡ select (of_type (some "system")) filled.history))
get_history_lem_example = get_history_lem filled (some "system") 1

notify_lem_example :
    ((notify bus started).1 ≡ meant_for "system" bus.subscribers)
    × ((i : ℕ)
        → (count_id i (notify bus started).1 ≤ 1)
          × (subscribed i (notify bus started).0.subscribers
              ≡ subscribed i bus.subscribers - count_once i (notify bus started).1))
notify_lem_example = notify_lem bus started bus-IsValid

unsubscribe_lem_example :
    ((unsubscribe bus (int (pos 1))).1 ≡ ltb 0 (subscribed 1 bus.subscribers))
    × ((i : ℕ)
        → subscribed i (unsubscribe bus (int (pos 1))).0.subscribers
          ≡ (if 1 == i then 0 else subscribed i bus.subscribers))
unsubscribe_lem_example = unsubscribe_lem bus 1

unsubscribe-subscribe_example :
    unsubscribe (subscribe bus "user" 9 true).0 (int (pos (subscribe bus "user" 9 true).1))
    ≡ (record bus { sub_id_counter = bus.sub_id_counter + 1 }, true)
unsubscribe-subscribe_example = unsubscribe-subscribe bus "user" 9 true bus-IsValid

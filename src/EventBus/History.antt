-- ===== src/EventBus/History.antt =====
-- The history holds the last events, in order.
use jarvis.Prelude.{
  ℕ, zero, suc, ◌+◌, ◌-◌, ◌≤◌, ◌≡◌, refl, sym, ap, ◌∙◌, Bool, true, false, if◌then◌else◌, min, List,
  [], ◌∷◌, ◌++◌, String, Option, some, arith, length, drop, length-append, length-drop, select,
  take, take-append-drop,
}
use jarvis.Json.{int, pos}
use mathlib.Core.List.{append-nil, append_assoc}
use jarvis.EventBus.{
  Event, EventBus, last, notify, record_event, publish, record_many, of_type, get_history,
}

module _ {ℓ} {A : Type ℓ} where
  drop-append : (n : ℕ) (xs ys : List A) → n ≤ length xs → drop n (xs ++ ys) ≡ drop n xs ++ ys
  drop-append zero xs ys h = refl
  drop-append (suc n) [] ys h = absurd (omega arith)
  drop-append (suc n) (x ∷ xs) ys h = drop-append n xs ys (omega arith)

  drop_nil : (n : ℕ) → drop {A = A} n [] ≡ []
  drop_nil zero = refl
  drop_nil (suc n) = refl

  drop-drop : (n m : ℕ) (xs : List A) → drop m (drop n xs) ≡ drop (n + m) xs
  drop-drop zero m xs = ap (λ k. drop k xs) (omega arith)
  drop-drop (suc n) m [] = drop_nil m ∙ sym (drop_nil (suc n + m))
  drop-drop (suc n) m (x ∷ xs) =
      let e : suc (n + m) ≡ suc n + m = omega arith in
      drop-drop n m xs ∙ ap (λ k. drop k (x ∷ xs)) e

  -- Dropping again after more was appended is dropping once.
  pub last-append : (n : ℕ) (xs ys : List A) → last n (last n xs ++ ys) ≡ last n (xs ++ ys)
  unfolding last
  last-append n xs ys =
      let k : ℕ = length xs - n in
      let total : k + (length (drop k xs ++ ys) - n) ≡ length (xs ++ ys) - n =
        omega (arith, length-append (drop k xs) ys, length-append xs ys, length-drop k xs) in
      ap (drop (length (drop k xs ++ ys) - n)) (sym (drop-append k xs ys (omega arith)))
      ∙ drop-drop k (length (drop k xs ++ ys) - n) (xs ++ ys)
      ∙ ap (λ m. drop m (xs ++ ys)) total

  pub length-last : (n : ℕ) (xs : List A) → length (last n xs) ≤ n
  unfolding last
  length-last n xs = omega (arith, length-drop (length xs - n) xs)

  length-last_eq : (n : ℕ) (xs : List A) → length (last n xs) ≡ min n (length xs)
  unfolding last
  length-last_eq n xs = omega (arith, length-drop (length xs - n) xs)

  pub last_short : (n : ℕ) (xs : List A) → length xs ≤ n → last n xs ≡ xs
  unfolding last
  last_short n xs h = ap (λ k. drop k xs) {y = 0} (omega arith)

abbrev pub Bounded : EventBus → Type 0
Bounded bus = length bus.history ≤ bus.max_history

-- One event after the other.
abbrev pub publish_all : EventBus → List Event → EventBus
publish_all bus [] = bus
publish_all bus (event ∷ events) = publish_all (publish bus event).0 events

publish-history :
    (bus : EventBus) (event : Event)
    → ((publish bus event).0.history ≡ last bus.max_history (bus.history ++ event ∷ []))
      × ((publish bus event).0.max_history ≡ bus.max_history)
unfolding publish notify record_event
publish-history bus event = (refl, refl)

-- After any events were published the history is the last `max_history` of what it held and
-- those, in order.
pub publish_all-history :
    (bus : EventBus) (events : List Event)
    → Bounded bus
    → (publish_all bus events).history ≡ last bus.max_history (bus.history ++ events)
publish_all-history bus [] h = sym (rw append-nil (last_short bus.max_history bus.history h))
publish_all-history bus (event ∷ events) h =
    let (first, same) = publish-history bus event in
    let now = bus.history ++ event ∷ [] in
    publish_all-history (publish bus event).0 events
      (rw (first, same) (length-last bus.max_history now))
    ∙ rw (first, same)
        (last-append bus.max_history now events
          ∙ ap (last bus.max_history) (append_assoc bus.history (event ∷ []) events))

-- Once it has the lock `record_many` answers true and leaves the history that publishing the events
-- one by one leaves; past its deadline it answers false and leaves the history as it is. It notifies
-- nobody: the subscriptions stay.
pub record_many-publish_all :
    (bus : EventBus) (events : List Event) (acquired : Bool)
    → Bounded bus
    → ((record_many bus events acquired).0.history
        ≡ (if acquired then (publish_all bus events).history else bus.history))
      × ((record_many bus events acquired).1 ≡ acquired)
      × ((record_many bus events acquired).0.subscribers ≡ bus.subscribers)
unfolding record_many
record_many-publish_all bus events true h = (sym (publish_all-history bus events h), refl, refl)
record_many-publish_all bus events false h = (refl, refl, refl)

-- A query for `limit` events returns the last of the history's events of the wanted type: `limit` of
-- them, or all if there are fewer.
pub get_history_lem :
    (bus : EventBus) (t : Option String) (limit : ℕ)
    → (found : List Event) × (get_history bus t (int (pos limit)) ≡ some found)
      × (length found ≡ min limit (length (select (of_type t) bus.history)))
      × ((earlier : List Event) × (earlier ++ found ≡ select (of_type t) bus.history))
unfolding get_history
get_history_lem bus t zero = ([], refl, omega arith, (select (of_type t) bus.history, append-nil _))
get_history_lem bus t (suc n) =
    let wanted = select (of_type t) bus.history in
    (
      last (suc n) wanted,
      ground arith,
      length-last_eq (suc n) wanted,
      unfold last in
          (take (length wanted - suc n) wanted, take-append-drop (length wanted - suc n) wanted),
    )

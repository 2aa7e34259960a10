-- ===== src/EventBus/Roundtrip.antt =====
-- Every reachable bus is valid, and a subscription can be undone.
use jarvis.Prelude.{
  ℕ, ◌+◌, String, ◌≡◌, refl, ap, Bool, true, false, not, List, [], ◌∷◌, ◌++◌, arith, str_eq,
  length-append, Bool-cases, inl, inr, select,
}
use jarvis.Json.{Value, int, pos, negsuc}
use jarvis.EventBus.{
  Event, Subscriber, Table, EventBus, new_bus, subscribe, add_sub, has_id, remove_sub, unsubscribe,
  notify, record_event, record_many, clear_history, destroy,
}
use jarvis.EventBus.History.{Bounded, length-last}
use jarvis.EventBus.Subscriptions.{
  count_id, subscribed, NoneEmpty, add_sub-subscribed, add_sub-NoneEmpty, remove_sub-subscribed,
  remove_sub-NoneEmpty,
}
use jarvis.EventBus.Reachable.{
  IsValid, Step, subscribes, unsubscribes, records, notifies, records_many, clears, destroys,
  Reachable, new, after, notify-subscribed, notify-NoneEmpty,
}

subscribe-IsValid :
    (b : EventBus) (t : String) (callback : ℕ) (once : Bool)
    → IsValid b
    → IsValid (subscribe b t callback once).0
unfolding subscribe
subscribe-IsValid b t callback once v =
    let sub : Subscriber = record { id = b.sub_id_counter; callback = callback; once = once } in
    record {
      bounded = v.bounded;
      fresh = λ i h. ground (arith, add_sub-subscribed i t sub b.subscribers, v.fresh i);
      unique = λ i. ground (arith, add_sub-subscribed i t sub b.subscribers, v.fresh i, v.unique i);
      none_empty = add_sub-NoneEmpty t sub b.subscribers v.none_empty;
    }

-- No id is the negative number `negsuc n`.
remove_sub_negative :
    (n : ℕ) (table : Table) → NoneEmpty table → remove_sub (int (negsuc n)) table ≡ (table, false)
unfolding remove_sub
remove_sub_negative n [] h = refl
remove_sub_negative n ((u, subs) ∷ table) h =
    rw (remove_sub_negative n table h.1, everyone subs, h.0) (ground arith)
  where
    everyone : (xs : List Subscriber) → select (λ s. not (has_id (int (negsuc n)) s)) xs ≡ xs
    everyone [] = refl
    everyone (x ∷ xs) = ap (λ l. x ∷ l) (everyone xs)

unsubscribe-IsValid : (b : EventBus) (sub_id : Value) → IsValid b → IsValid (unsubscribe b sub_id).0
unfolding unsubscribe
unsubscribe-IsValid b (int (pos n)) v = record {
  bounded = v.bounded;
  fresh = λ i h. ground (arith, remove_sub-subscribed i n b.subscribers, v.fresh i);
  unique = λ i. ground (arith, remove_sub-subscribed i n b.subscribers, v.unique i);
  none_empty = remove_sub-NoneEmpty n b.subscribers;
}
unsubscribe-IsValid b (int (negsuc n)) v = rw (remove_sub_negative n b.subscribers v.none_empty) v
unsubscribe-IsValid b _ v = v

notify-Bounded : (b : EventBus) (event : Event) → Bounded b → Bounded (notify b event).0
unfolding notify
notify-Bounded b event h = h

notify-counter :
    (b : EventBus) (event : Event) → (notify b event).0.sub_id_counter ≡ b.sub_id_counter
unfolding notify
notify-counter b event = refl

Step-IsValid : {b c : EventBus} → Step b c → IsValid b → IsValid c
unfolding record_event record_many clear_history destroy
Step-IsValid (subscribes b t callback once) v = subscribe-IsValid b t callback once v
Step-IsValid (unsubscribes b sub_id) v = unsubscribe-IsValid b sub_id v
Step-IsValid (records b event) v = record {
  bounded = length-last b.max_history (b.history ++ event ∷ []);
  fresh = v.fresh;
  unique = v.unique;
  none_empty = v.none_empty;
}
Step-IsValid (notifies b event) v = record {
  bounded = notify-Bounded b event v.bounded;
  fresh = λ i h.
      omega (arith, notify-subscribed i b event, v.fresh i (rw (notify-counter b event) at h));
  unique = λ i. omega (arith, notify-subscribed i b event, v.unique i);
  none_empty = notify-NoneEmpty b event v.none_empty;
}
Step-IsValid (records_many b events true) v = record {
  bounded = length-last b.max_history (b.history ++ events);
  fresh = v.fresh;
  unique = v.unique;
  none_empty = v.none_empty;
}
Step-IsValid (records_many b events false) v = v
Step-IsValid (clears b) v = record {
  bounded = omega arith;
  fresh = v.fresh;
  unique = v.unique;
  none_empty = v.none_empty;
}
Step-IsValid (destroys b) v = record {
  bounded = omega arith;
  fresh = λ i h. refl;
  unique = λ i. omega arith;
  none_empty = tt;
}

-- After any sequence of operations on a new bus the history holds at most `max_history` events,
-- ids from the counter on are unused, no id is used twice, and no entry of the table is empty.
pub Reachable-IsValid : {max_history : ℕ} {b : EventBus} → Reachable max_history b → IsValid b
Reachable-IsValid {max_history} new =
    unfold new_bus in
    record {
      bounded = omega arith;
      fresh = λ i h. refl;
      unique = λ i. omega arith;
      none_empty = tt;
    }
Reachable-IsValid (after r step) = Step-IsValid step (Reachable-IsValid r)

others_all :
    (n : ℕ) (subs : List Subscriber)
    → count_id n subs ≡ 0
    → select (λ s. not (has_id (int (pos n)) s)) subs ≡ subs
others_all n [] h = refl
others_all n (s ∷ subs) h = ground (arith, others_all n subs)

others_snoc :
    (n : ℕ) (subs : List Subscriber) (s : Subscriber)
    → count_id n subs ≡ 0
    → s.id ≡ n
    → select (λ x. not (has_id (int (pos n)) x)) (subs ++ s ∷ []) ≡ subs
others_snoc n [] s h e = ground arith
others_snoc n (x ∷ subs) s h e = ground (arith, others_snoc n subs s)

remove_sub_absent :
    (n : ℕ) (table : Table)
    → NoneEmpty table
    → subscribed n table ≡ 0
    → remove_sub (int (pos n)) table ≡ (table, false)
unfolding remove_sub
remove_sub_absent n [] h e = refl
remove_sub_absent n ((u, subs) ∷ table) h e =
    rw (remove_sub_absent n table h.1 (omega arith), others_all n subs (omega arith), h.0)
      (ground arith)

remove_sub-add_sub :
    (t : String) (s : Subscriber) (table : Table)
    → NoneEmpty table
    → subscribed s.id table ≡ 0
    → remove_sub (int (pos s.id)) (add_sub t s table) ≡ (table, true)
unfolding remove_sub add_sub
remove_sub-add_sub t s [] h e = ground arith
remove_sub-add_sub t s ((u, subs) ∷ table) h e = elim (Bool-cases (str_eq u t)) [
  | inl same ↦
      rw
        (
          same,
          remove_sub_absent s.id table h.1 (omega arith),
          others_snoc s.id subs s (omega arith) refl,
          h.0,
        )
        (ground (arith, length-append subs (s ∷ [])))
  | inr other ↦
      rw
        (
          other,
          remove_sub-add_sub t s table h.1 (omega arith),
          others_all s.id subs (omega arith),
          h.0,
        )
        (ground arith)
]

-- Unsubscribing with the id that `subscribe` returned gives back the table as it was, and only the
-- counter has moved on.
pub unsubscribe-subscribe :
    (b : EventBus) (t : String) (callback : ℕ) (once : Bool)
    → IsValid b
    → unsubscribe (subscribe b t callback once).0 (int (pos (subscribe b t callback once).1))
      ≡ (record b { sub_id_counter = b.sub_id_counter + 1 }, true)
unfolding unsubscribe subscribe
unsubscribe-subscribe b t callback once v =
    let sub : Subscriber = record { id = b.sub_id_counter; callback = callback; once = once } in
    rw
      (remove_sub-add_sub t sub b.subscribers v.none_empty (v.fresh b.sub_id_counter (omega arith)))

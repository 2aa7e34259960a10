-- ===== src/PluginBroker/Trace.antt =====
-- What a session under any interleaving admits, and what it leaves on the bus.
use jarvis.Prelude.{
  ℕ, ◌+◌, ◌≤◌, ◌≡◌, ◌⊎◌, inl, inr, sym, Bool, true, false, Bool-cases, ◌||◌, if◌then◌else◌, ltb,
  leb, List, [], ◌∷◌, ◌++◌, All, length, elem, Option, some, none, String, str_eq, arith,
}
use mathlib.Core.Path.{subst}
use jarvis.EventBus.{Event, EventBus, last, record_many}
use jarvis.RoleTools.Broker.{Library}
use jarvis.PluginBroker.JsonSize.{stable_json_size}
use jarvis.PluginBroker.Broker.{
  PluginBroker, PluginBrokerRequest, is_active_generation, max_broker_calls,
  max_broker_exchange_bytes,
}
use jarvis.PluginBroker.Admission.{
  PluginBrokerSession, admit_sized, admit_with, admit, request_to_dict,
}
use jarvis.PluginBroker.Session.{settle, commit_events, abort}
use jarvis.PluginBroker.Outbox.{IsPluginEvent, IsDistinct}
use jarvis.PluginBroker.Threads.{
  is_foreign, is_admitted, Trace, Reach, begun, admits, settles, publishes, commits, aborts,
  Reach-session, Stays, settle-Stays,
}

-- The calls that were admitted have different ids, each recorded by the session.
abbrev pub IsCounted : PluginBrokerSession → List String → Type 0
IsCounted s calls =
    IsDistinct calls
    × ((id : String) → elem id calls ≡ true → elem id s.call_ids ≡ true)
    × (length calls ≤ s.call_count)

-- The ways out of the first step, with the calls that are admitted by then.
admit_sized-IsCounted :
    (b : PluginBroker) (s : PluginBrokerSession) (request : PluginBrokerRequest)
    (argument_bytes exchange_bytes : ℕ) (calls : List String)
    → IsCounted s calls
    → let end = admit_sized b s request argument_bytes exchange_bytes in
      IsCounted end.0 (if is_admitted end.1 then request.call_id ∷ calls else calls)
admit_sized-IsCounted b s request argument_bytes exchange_bytes calls (distinct, known, few) =
    let same : IsCounted s calls = (distinct, known, few) in
    elim (Bool-cases (str_eq request.request_id s.request_id)) [
      | inr a ↦ rw a same
      | inl a ↦ elim (Bool-cases (str_eq request.plugin_id s.plugin_id)) [
        | inr c ↦ rw (a, c) same
        | inl c ↦ elim (Bool-cases (is_active_generation b s.plugin_id s.generation)) [
          | inr d ↦ rw (a, c, d) same
          | inl d ↦ elim (Bool-cases (elem request.call_id s.call_ids)) [
            | inl e ↦ rw (a, c, d, e) same
            | inr e ↦ elim (Bool-cases (leb max_broker_calls s.call_count)) [
              | inl f ↦ rw (a, c, d, e, f) same
              | inr f ↦
                  let wider : (id : String)
                      → elem id calls ≡ true
                      → elem id (request.call_id ∷ s.call_ids) ≡ true =
                    λ id h. ground (arith, known id h) in
                  let fresh : elem request.call_id calls ≡ false =
                    absent request.call_id calls s.call_ids known e in
                  elim (Bool-cases
                    (ltb max_broker_exchange_bytes (s.exchange_bytes + exchange_bytes))) [
                      | inl g ↦ rw (a, c, d, e, f, g) (distinct, wider, omega (arith, few))
                      | inr g ↦
                          rw (a, c, d, e, f, g)
                            (
                              (fresh, distinct),
                              λ id h. ground (arith, h, known id),
                              omega (arith, few),
                            )
                    ]
            ]
          ]
        ]
      ]
    ]
  where
    absent :
        (id : String) (calls ids : List String)
        → ((x : String) → elem x calls ≡ true → elem x ids ≡ true)
        → elem id ids ≡ false
        → elem id calls ≡ false
    absent id calls ids known e = elim (Bool-cases (elem id calls)) [
      | inl here ↦ absurd (ground (arith, known id here, e))
      | inr gone ↦ gone
    ]

admit_with-IsCounted :
    (b : PluginBroker) (s : PluginBrokerSession) (request : PluginBrokerRequest) (m n : Option ℕ)
    (calls : List String)
    → IsCounted s calls
    → let end = admit_with b s request m n in
      IsCounted end.0 (if is_admitted end.1 then request.call_id ∷ calls else calls)
admit_with-IsCounted b s request (some m) (some n) calls h =
    admit_sized-IsCounted b s request m n calls h
admit_with-IsCounted b s request (some m) none calls h = h
admit_with-IsCounted b s request none n calls h = h

Stays-IsCounted :
    (l : Library) (s t : PluginBrokerSession) (calls : List String)
    → Stays l s t
    → IsCounted s calls
    → IsCounted t calls
Stays-IsCounted l s t calls (plugin, commit, abort_same, ids, count) (distinct, known, few) = (
  distinct,
  subst (λ k. (id : String) → elem id calls ≡ true → elem id k ≡ true) (sym ids) known,
  subst (λ n. length calls ≤ n) (sym count) few,
)

-- Each event of the bus is foreign, or of the plugin, which has committed it.
abbrev pub Accounts : Library → PluginBrokerSession → Event → Type 0
Accounts l s e =
    (is_foreign s.plugin_id e ≡ true) ⊎ ((s.committed ≡ true) × IsPluginEvent l s.plugin_id e)

-- What is on the bus; a session that was aborted before a commit is aborted, and never committed.
abbrev pub IsPublished : Library → PluginBrokerSession → Trace → Type 0
IsPublished l s t =
    All (Accounts l s) t.bus.history
    × (t.dropped ≡ true → (s.aborted ≡ true) × (s.committed ≡ false))

module _ (l : Library) where
  -- A commit under the lock of a session that is open records all of its events, at the end of the bus's
  -- bounded history, and tells so.
  abbrev pub Commits : PluginBrokerSession → EventBus → Type 0
  Commits s bus =
      (s.aborted || s.committed) ≡ false
      → ((commit_events bus s true).1 ≡ true)
        × ((commit_events bus s true).0.0.history ≡ last bus.max_history (bus.history ++ s.events))

  commit_events-IsCounted :
      (bus : EventBus) (s : PluginBrokerSession) (acquired : Bool) (calls : List String)
      → IsCounted s calls
      → IsCounted (commit_events bus s acquired).0.1 calls
  unfolding commit_events
  commit_events-IsCounted bus s acquired calls h = elim (Bool-cases (s.aborted || s.committed)) [
    | inl shut ↦ rw shut h
    | inr is_open ↦ elim (Bool-cases (record_many bus s.events acquired).1) [
      | inl done ↦ rw (is_open, done) h
      | inr late ↦ rw (is_open, late) h
    ]
  ]

  Reach-IsCounted : {s : PluginBrokerSession} {t : Trace} → Reach l s t → IsCounted s t.calls
  unfolding admit abort
  Reach-IsCounted (begun before after plugin_id request_id declared generation s bus h foreign) =
      (tt, λ id k. absurd (ground (arith, k)), omega arith)
  Reach-IsCounted (admits {s = s} {t = t} r b request) =
      admit_with-IsCounted b s request (stable_json_size l request.arguments)
        (stable_json_size l (request_to_dict request)) t.calls (Reach-IsCounted r)
  Reach-IsCounted (settles {s = s} {t = t} r b request stamp end permitted) =
      Stays-IsCounted l s (settle l s request stamp end).0 t.calls
        (settle-Stays l s request stamp end) (Reach-IsCounted r)
  Reach-IsCounted (publishes r e foreign) = Reach-IsCounted r
  Reach-IsCounted (commits {s = s} {t = t} r acquired) =
      commit_events-IsCounted t.bus s acquired t.calls (Reach-IsCounted r)
  Reach-IsCounted (aborts r) = Reach-IsCounted r

  -- Whatever its threads do, in whatever order, a session admits at most 32 calls, no two of them with
  -- the same id; its count of exchanged bytes is at most 65536, and it has no events once it is aborted
  -- or committed.
  pub Reach-IsValid :
      {s : PluginBrokerSession} {t : Trace}
      → Reach l s t
      → (length t.calls ≤ max_broker_calls)
        × IsDistinct t.calls
        × (s.exchange_bytes ≤ max_broker_exchange_bytes)
        × ((s.aborted || s.committed) ≡ true → s.events ≡ [])
  Reach-IsValid r =
      let (calls, ids, once, bytes, closed, events) = Reach-session l r in
      let (distinct, known, few) = Reach-IsCounted r in
      (omega (arith, few, calls), distinct, bytes, closed)

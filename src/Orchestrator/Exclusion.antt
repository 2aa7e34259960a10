-- ===== src/Orchestrator/Exclusion.antt =====
-- One agent under any interleaving of the methods that threads call on it.
use jarvis.Prelude.{
  ℕ, suc, ◌≡◌, ◌⊎◌, inl, inr, Bool, true, false, Option-cases, if◌then◌else◌, List, Option, none,
  String, arith,
}
use mathlib.Core.Path.{subst}
use jarvis.Orchestrator.Agent.{
  AgentStatus, idle, busy, error, shut_down, AgentTask, Agent, Probe, is_some, new_agent, reap,
  try_assign, complete, release_assignment, fail, reset, recover_from_error, quarantine,
  quarantine_declared_worker, shutdown_agent,
}

-- The agent, and how many dispatches have been assigned to it and have not ended.
pub record Config : Type 0 where
  pub agent : Agent
  pub executing : ℕ

-- How the dispatch that holds the agent ends.
pub data End : Type 0 where
  completed released : End
  failed : (recoverable : Bool) → End
  left_thread : Probe → ℕ → End
  left_worker : Probe → End

abbrev pub is_shut_down : AgentStatus → Bool
is_shut_down shut_down = true
is_shut_down _ = false

abbrev pub end_dispatch : End → Agent → Agent
end_dispatch completed a = complete a
end_dispatch released a = release_assignment a
end_dispatch (failed recoverable) a = fail recoverable a
end_dispatch (left_thread p thread) a = quarantine p thread a
end_dispatch (left_worker p) a = quarantine_declared_worker p a

pub data Step : Config → Config → Type 0 where
  tries :
      (p : Probe) (task : AgentTask) (a : Agent) (n : ℕ)
      → Step
          (record { agent = a; executing = n })
          (record {
            agent = (try_assign p a task).0;
            executing = if (try_assign p a task).1 then suc n else n;
          })
  ends :
      (e : End) (a : Agent) (n : ℕ)
      → Step
          (record { agent = a; executing = suc n })
          (record { agent = end_dispatch e a; executing = n })
  resets :
      (p : Probe) (a : Agent) (n : ℕ)
      → Step (record { agent = a; executing = n }) (record { agent = reset p a; executing = n })
  recovers :
      (p : Probe) (a : Agent) (n : ℕ)
      → Step
          (record { agent = a; executing = n })
          (record { agent = (recover_from_error p a).0; executing = n })
  -- `is_available`, `info`, `has_pending_execution` and `can_unregister` reap and read.
  observes :
      (p : Probe) (a : Agent) (n : ℕ)
      → Step (record { agent = a; executing = n }) (record { agent = reap p a; executing = n })
  shuts_down :
      (a : Agent) (n : ℕ)
      → Step
          (record { agent = a; executing = n })
          (record { agent = shutdown_agent a; executing = n })

-- What an agent goes through from its registration on.
pub data Reach (name : String) (declared : Bool) (capabilities : List String)
    : Config → Type 0 where
  registered :
      Reach name declared capabilities
        (record { agent = new_agent name declared capabilities; executing = 0 })
  next :
      {c d : Config}
      → Reach name declared capabilities c
      → Step c d
      → Reach name declared capabilities d

-- What the status says of the executions, the pending ones, the task and `_error_recoverable`.
abbrev pub Holds : AgentStatus → ℕ → Option ℕ → Bool → Option AgentTask → Bool → Type 0
Holds idle executing thread worker task recoverable =
    (executing ≡ 0) × (thread ≡ none) × (worker ≡ false) × (task ≡ none)
Holds busy executing thread worker task recoverable =
    (executing ≡ 1) × (thread ≡ none) × (worker ≡ false) × (is_some task ≡ true)
Holds error executing thread worker task recoverable =
    (executing ≡ 0)
    × (((thread ≡ none) × (worker ≡ false))
        ⊎ ((recoverable ≡ false) × ((thread ≡ none) ⊎ (worker ≡ false))))
Holds shut_down executing thread worker task recoverable =
    (executing ≡ 0) ⊎ ((executing ≡ 1) × (thread ≡ none) × (worker ≡ false))

abbrev pub IsValid : Config → Type 0
IsValid c =
    let a = c.agent in
    Holds a.status c.executing a.pending_thread a.pending_declared_worker a.current_task
      a.error_recoverable

-- A valid agent that is reaped is valid, and its executions are the same.
reap-IsValid :
    (p : Probe) (a : Agent) (n : ℕ)
    → IsValid (record { agent = a; executing = n })
    → IsValid (record { agent = reap p a; executing = n })
unfolding reap
reap-IsValid p a n v = ground arith

try_assign-IsValid :
    (p : Probe) (task : AgentTask) (a : Agent) (n : ℕ)
    → IsValid (record { agent = a; executing = n })
    → IsValid (record {
      agent = (try_assign p a task).0;
      executing = if (try_assign p a task).1 then suc n else n;
    })
unfolding try_assign
try_assign-IsValid p task a n v = ground (arith, reap-IsValid p a n v)

end_dispatch-IsValid :
    (e : End) (a : Agent) (n : ℕ)
    → IsValid (record { agent = a; executing = suc n })
    → IsValid (record { agent = end_dispatch e a; executing = n })
unfolding complete release_assignment fail quarantine quarantine_declared_worker reap
end_dispatch-IsValid completed a n v = ground arith
end_dispatch-IsValid released a n v = ground arith
end_dispatch-IsValid (failed r) a n v = ground arith
end_dispatch-IsValid (left_thread p thread) a n v = ground arith
end_dispatch-IsValid (left_worker p) a n v = ground arith

reset-IsValid :
    (p : Probe) (a : Agent) (n : ℕ)
    → IsValid (record { agent = a; executing = n })
    → IsValid (record { agent = reset p a; executing = n })
unfolding reset
reset-IsValid p a n v = ground (arith, reap-IsValid p a n v)

recover_from_error-IsValid :
    (p : Probe) (a : Agent) (n : ℕ)
    → IsValid (record { agent = a; executing = n })
    → IsValid (record { agent = (recover_from_error p a).0; executing = n })
unfolding recover_from_error
recover_from_error-IsValid p a n v = ground (arith, reap-IsValid p a n v)

shutdown_agent-IsValid :
    (a : Agent) (n : ℕ)
    → IsValid (record { agent = a; executing = n })
    → IsValid (record { agent = shutdown_agent a; executing = n })
unfolding shutdown_agent
shutdown_agent-IsValid a n v = ground arith

Step-IsValid : {c d : Config} → Step c d → IsValid c → IsValid d
Step-IsValid (tries p task a n) v = try_assign-IsValid p task a n v
Step-IsValid (ends e a n) v = end_dispatch-IsValid e a n v
Step-IsValid (resets p a n) v = reset-IsValid p a n v
Step-IsValid (recovers p a n) v = recover_from_error-IsValid p a n v
Step-IsValid (observes p a n) v = reap-IsValid p a n v
Step-IsValid (shuts_down a n) v = shutdown_agent-IsValid a n v

-- Whatever the threads do, in whatever order, the status of an agent agrees with what executes.
pub Reach-IsValid :
    {name : String} {declared : Bool} {capabilities : List String} {c : Config}
    → Reach name declared capabilities c
    → IsValid c
unfolding new_agent
Reach-IsValid registered = ground arith
Reach-IsValid (next r step) = Step-IsValid step (Reach-IsValid r)

-- Nothing that was left to run is still running.
abbrev pub IsQuiet : Probe → Type 0
IsQuiet p = ((thread : ℕ) → p.is_alive thread ≡ false) × (p.worker_pending ≡ false)

reap-quiet :
    (p : Probe) (a : Agent)
    → IsQuiet p
    → ((reap p a).pending_thread ≡ none)
      × ((reap p a).pending_declared_worker ≡ false)
      × (is_shut_down (reap p a).status ≡ is_shut_down a.status)
unfolding reap
reap-quiet p a quiet = elim (Option-cases a.pending_thread) [
  | inl nothing ↦ ground (arith, nothing, quiet.1)
  | inr (thread, pending) ↦ ground (arith, pending, quiet.0 thread, quiet.1)
]

reset-quiet :
    (p : Probe) (a : Agent)
    → IsQuiet p
    → IsValid (record { agent = a; executing = 0 })
    → is_shut_down a.status ≡ false
    → ((reset p a).status ≡ idle)
      × ((reset p a).pending_thread ≡ none)
      × ((reset p a).pending_declared_worker ≡ false)
unfolding reset
reset-quiet p a quiet v up = ground (arith, reap-quiet p a quiet, reap-IsValid p a 0 v)

try_assign-idle :
    (p : Probe) (a : Agent) (task : AgentTask)
    → a.status ≡ idle
    → a.pending_thread ≡ none
    → a.pending_declared_worker ≡ false
    → (try_assign p a task).1 ≡ true
unfolding try_assign reap
try_assign-idle p a task idle_now no_thread no_worker = ground arith

-- Whatever happened to an agent that is not shut down, once no dispatch holds it and what was left to
-- run has ended, a reset makes it take the next task.
pub reset-available :
    {name : String} {declared : Bool} {capabilities : List String} {c : Config}
    (r : Reach name declared capabilities c) (p : Probe) (task : AgentTask)
    → IsQuiet p
    → c.executing ≡ 0
    → is_shut_down c.agent.status ≡ false
    → (try_assign p (reset p c.agent) task).1 ≡ true
reset-available {c} r p task quiet free up =
    let valid =
      subst (λ n. IsValid (record { agent = c.agent; executing = n })) free (Reach-IsValid r) in
    let (now, no_thread, no_worker) = reset-quiet p c.agent quiet valid up in
    try_assign-idle p (reset p c.agent) task now no_thread no_worker

-- ===== src/Orchestrator/Agent.antt =====
-- `_RegisteredAgent`: each method runs under the agent's lock and is one step.
use jarvis.Prelude.{
  ℕ, ◌+◌, Bool, true, false, not, ◌&&◌, ◌||◌, if◌then◌else◌, List, Option, some, none, String,
}
use jarvis.Json.{Members}

pub data AgentStatus : Type 0 where
  idle busy error shut_down : AgentStatus

pub record AgentTask : Type 0 where
  pub task_id : String
  pub agent_name : String
  pub prompt : String
  pub timeout : ℕ
  pub priority : ℕ
  pub metadata : Members

-- A thread is known by a number; of the declared worker only whether there is one.
pub record Agent : Type 0 where
  pub name : String
  pub declared_worker : Bool
  pub capabilities : List String
  pub status : AgentStatus
  pub current_task : Option AgentTask
  pub tasks_completed : ℕ
  pub errors_count : ℕ
  pub error_recoverable : Bool
  pub pending_thread : Option ℕ
  pub pending_declared_worker : Bool

-- What a method sees of the outside: which threads are alive, and whether the worker answers that it
-- has an execution pending, or fails to answer.
pub record Probe : Type 0 where
  pub is_alive : ℕ → Bool
  pub worker_pending : Bool

abbrev pub is_idle : AgentStatus → Bool
is_idle idle = true
is_idle _ = false

abbrev pub is_busy : AgentStatus → Bool
is_busy busy = true
is_busy _ = false

abbrev pub is_error : AgentStatus → Bool
is_error error = true
is_error _ = false

-- The status that is set unless the agent is shut down.
abbrev pub unless_shut_down : AgentStatus → AgentStatus → AgentStatus
unless_shut_down shut_down new = shut_down
unless_shut_down _ new = new

abbrev pub is_some {ℓ} : {A : Type ℓ} → Option A → Bool
is_some none = false
is_some (some a) = true

unfoldable pub new_agent : String → (declared_worker : Bool) → List String → Agent
new_agent name declared capabilities = record {
  name = name;
  declared_worker = declared;
  capabilities = capabilities;
  status = idle;
  current_task = none;
  tasks_completed = 0;
  errors_count = 0;
  error_recoverable = false;
  pending_thread = none;
  pending_declared_worker = false;
}

-- `_reap_finished_execution_locked`, after the part about the thread.
abbrev pub reap_worker : Probe → Agent → Agent
reap_worker p a =
    if not a.pending_declared_worker
    then a
    else if a.declared_worker && p.worker_pending
    then a
    else record a {
      pending_declared_worker = false;
      current_task = none;
      error_recoverable = false;
      status = unless_shut_down a.status idle;
    }

abbrev pub reap_thread : Probe → Agent → Option ℕ → Agent
reap_thread p a none = reap_worker p a
reap_thread p a (some thread) =
    if p.is_alive thread
    then a
    else reap_worker p (record a {
      pending_thread = none;
      current_task = none;
      error_recoverable = false;
      status = unless_shut_down a.status idle;
    })

-- `_reap_finished_execution_locked`.
unfoldable pub reap : Probe → Agent → Agent
reap p a = reap_thread p a a.pending_thread

abbrev assigned : Agent → AgentTask → Agent
assigned a task = record a { current_task = some task; status = busy; error_recoverable = false }

unfoldable pub try_assign : Probe → Agent → AgentTask → Agent × Bool
try_assign p a task =
    let reaped = reap p a in
    if not (is_idle reaped.status) then (reaped, false) else (assigned reaped task, true)

unfoldable pub complete : Agent → Agent
complete a = record a {
  tasks_completed = a.tasks_completed + 1;
  current_task = none;
  error_recoverable = false;
  status = unless_shut_down a.status idle;
}

unfoldable pub release_assignment : Agent → Agent
release_assignment a = record a {
  current_task = none;
  error_recoverable = false;
  status = unless_shut_down a.status idle;
}

unfoldable pub fail : (recoverable : Bool) → Agent → Agent
fail recoverable a = record a {
  errors_count = a.errors_count + 1;
  current_task = none;
  error_recoverable = recoverable;
  status = unless_shut_down a.status error;
}

unfoldable pub reset : Probe → Agent → Agent
reset p a =
    let reaped = reap p a in
    if is_some reaped.pending_thread
      || reaped.pending_declared_worker
      || not (is_error reaped.status)
    then reaped
    else record reaped { status = idle; current_task = none; error_recoverable = false }

unfoldable pub recover_from_error : Probe → Agent → Agent × Bool
recover_from_error p a =
    let reaped = reap p a in
    if not (is_error reaped.status) || not reaped.error_recoverable
    then (reaped, false)
    else (record reaped { status = idle; current_task = none; error_recoverable = false }, true)

unfoldable pub quarantine : Probe → ℕ → Agent → Agent
quarantine p thread a =
    let reaped = reap p a in
    record reaped {
      errors_count = reaped.errors_count + 1;
      status = unless_shut_down reaped.status error;
      error_recoverable = false;
      pending_thread = some thread;
    }

unfoldable pub quarantine_declared_worker : Probe → Agent → Agent
quarantine_declared_worker p a =
    let reaped = reap p a in
    record reaped {
      errors_count =
          if reaped.pending_declared_worker then reaped.errors_count else reaped.errors_count + 1;
      status = unless_shut_down reaped.status error;
      error_recoverable = false;
      pending_declared_worker = true;
    }

unfoldable pub has_pending_execution : Probe → Agent → Agent × Bool
has_pending_execution p a =
    let reaped = reap p a in
    (
      reaped,
      is_some reaped.pending_thread
          || reaped.pending_declared_worker
          || reaped.declared_worker && p.worker_pending,
    )

unfoldable pub can_unregister : Probe → Agent → Agent × Bool
can_unregister p a =
    let reaped = reap p a in
    (
      reaped,
      not (is_busy reaped.status)
          && not (is_some reaped.pending_thread)
          && not reaped.pending_declared_worker,
    )

unfoldable pub shutdown_agent : Agent → Agent
shutdown_agent a = record a { status = shut_down; current_task = none; error_recoverable = false }

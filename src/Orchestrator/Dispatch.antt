-- ===== src/Orchestrator/Dispatch.antt =====
-- A dispatch in its two parts, between which other threads run, and `collect`. A busy agent stays in the
-- table, unless the orchestrator is shut down.
use jarvis.Prelude.{
  ℕ, Bool, true, false, not, ◌&&◌, ◌||◌, if◌then◌else◌, List, take, select, Option, some, none,
  String, str_eq,
}
use mathlib.Core.List.{reverse}
use jarvis.Json.{null}
use jarvis.Orchestrator.Agent.{
  Agent, AgentTask, Probe, try_assign, complete, release_assignment, fail, quarantine,
  quarantine_declared_worker, has_pending_execution,
}
use jarvis.Orchestrator.Table.{
  AgentResult, Execution, Orchestrator, Output, ResultStatus, WorkerRecord, WorkerTaskStatus, busy,
  cancelled, count_dispatched, count_error, count_success, count_timeout, error, failed, find_agent,
  is_busy, is_terminal, message, no_error, not_found, on_held, outlives, own_result, raises,
  raises_timeout, record_result, result_of, returns, returns_uncopyable, set_agent, shutting_down,
  succeeded, success, tag, timed_out_after, timeout, value, with_agents, worker_answers,
  worker_cancelled, worker_raises, worker_rejects, worker_timeout,
}

-- What `dispatch` has once it leaves the lock: a refusal, or an agent that executes the task.
pub data Begun : Type 0 where
  refused : AgentResult → Begun
  begun : (declared : Bool) → Begun

-- After `try_assign`.
abbrev pub begin_tried :
    Orchestrator → AgentTask → (declared : Bool) → Agent → (done : Bool) → Orchestrator × Begun
begin_tried o task declared tried done =
    let touched = with_agents o (set_agent tried o.agents) in
    if not done
    then (count_error touched, refused (result_of task 0 busy (is_busy task.agent_name) null))
    else (touched, begun declared)

-- After the table was looked up.
abbrev pub begin_found : Orchestrator → Probe → AgentTask → Option Agent → Orchestrator × Begun
begin_found o p task none =
    (count_error o, refused (result_of task 0 error (not_found task.agent_name) null))
begin_found o p task (some agent) =
    let (tried, done) = try_assign p agent task in
    begin_tried o task agent.declared_worker tried done

unfoldable pub begin_dispatch : Orchestrator → Probe → AgentTask → Orchestrator × Begun
begin_dispatch old p task =
    let o = count_dispatched old in
    if o.is_shut_down
    then (o, refused (result_of task 0 error shutting_down null))
    else begin_found o p task (find_agent o.agents task.agent_name)

-- The task has an end: the agent's state, a statistic and a record of the result.
abbrev ended :
    Orchestrator
    → (held : Bool) → AgentTask
    → (Agent → Agent)
    → (Orchestrator → Orchestrator)
    → AgentResult
    → Orchestrator × AgentResult
ended o held task method counts r =
    (record_result r (counts (with_agents o (on_held held method o.agents task.agent_name))), r)

-- A returned output becomes a result, but for a handler's own, which only gets its duration.
abbrev as_result : AgentTask → ℕ → Output → AgentResult
as_result task duration (value v) = result_of task duration success no_error v
as_result task duration (own_result r) = record r { duration_ms = duration }

-- The end of a task whose worker has answered with a confirmed terminal record.
abbrev pub finish_record :
    Orchestrator
    → (held : Bool) → AgentTask
    → ℕ
    → WorkerRecord
    → WorkerTaskStatus
    → Orchestrator × AgentResult
finish_record o held task duration r succeeded = elim r.decoded [
  | none ↦
      ended o held task (fail true) count_error
        (result_of task duration error (message r.decode_error) null)
  | some output ↦ ended o held task complete count_success (as_result task duration output)
]
finish_record o held task duration r worker_timeout =
    ended o held task (fail false) count_timeout
      (result_of task duration timeout (timed_out_after task.timeout) null)
finish_record o held task duration r worker_cancelled =
    ended o held task release_assignment (λ same. same)
      (result_of task duration cancelled
        (message (if str_eq r.error "" then "Worker task cancelled" else r.error)) null)
finish_record o held task duration r _ = ended o held task (fail true) count_error (
    result_of task duration error
      (message (if str_eq r.error "" then "Declared agent worker failed" else r.error)) null)

abbrev unconfirmed :
    Orchestrator → Probe → (held : Bool) → AgentTask → ℕ → Orchestrator × AgentResult
unconfirmed o p held task duration =
    ended o held task (quarantine_declared_worker p) count_timeout
      (result_of task duration timeout (timed_out_after task.timeout) null)

-- The agent of a worker that raised: it waits for what is pending, or has failed.
abbrev pub after_worker_error : Probe → Agent → Agent
after_worker_error p agent =
    let (seen, pending) = has_pending_execution p agent in
    if pending then quarantine_declared_worker p seen else fail true seen

-- From `start` on, and `_dispatch_declared`. A result that cannot be copied is noticed after the agent
-- has completed the task; what other threads do between that and the failure is not seen here.
unfoldable pub finish_dispatch :
    Orchestrator
    → Probe
    → (held : Bool) → AgentTask
    → (duration : ℕ) → Execution
    → Orchestrator × AgentResult
finish_dispatch o p held task duration (returns output) =
    ended o held task complete count_success (as_result task duration output)
finish_dispatch o p held task duration (returns_uncopyable output text) =
    ended o held task (λ agent. fail true (complete agent)) (λ now. count_error (count_success now))
      (result_of task duration error (message text) null)
finish_dispatch o p held task duration (outlives thread) =
    ended o held task (quarantine p thread) count_timeout
      (result_of task duration timeout (timed_out_after task.timeout) null)
finish_dispatch o p held task duration raises_timeout =
    ended o held task (fail false) count_timeout
      (result_of task duration timeout (timed_out_after task.timeout) null)
finish_dispatch o p held task duration (raises text) =
    ended o held task (fail true) count_error (result_of task duration error (message text) null)
finish_dispatch o p held task duration (worker_rejects text) =
    ended o held task release_assignment count_error
      (result_of task duration error (message text) null)
finish_dispatch o p held task duration (worker_raises text) =
    ended o held task (after_worker_error p) count_error
      (result_of task duration error (message text) null)
finish_dispatch o p held task duration (worker_answers none) = unconfirmed o p held task duration
finish_dispatch o p held task duration (worker_answers (some r)) =
    if not (is_terminal r.status) || not r.termination_confirmed
    then unconfirmed o p held task duration
    else finish_record o held task duration r r.status

-- A dispatch with nothing between its two parts, and whether it was an attempt on a declared agent.
unfoldable pub dispatch :
    Orchestrator
    → Probe
    → AgentTask
    → (duration : ℕ) → Execution
    → Orchestrator × AgentResult × Option Bool
dispatch o p task duration execution =
    let start = begin_dispatch o p task in
    elim start.1 [
      | refused r ↦ (start.0, r, none)
      | begun declared ↦
          let end = finish_dispatch start.0 p true task duration execution in
          (end.0, end.1, some declared)
    ]

abbrev same_status : ResultStatus → ResultStatus → Bool
same_status success success = true
same_status error error = true
same_status timeout timeout = true
same_status busy busy = true
same_status cancelled cancelled = true
same_status failed failed = true
same_status (tag a) (tag b) = str_eq a b
same_status _ _ = false

abbrev matches : {A : Type 0} → (A → A → Bool) → Option A → A → Bool
matches same none a = true
matches same (some wanted) a = same a wanted

-- `none` is the ValueError of a limit that is no non-negative int.
unfoldable pub collect :
    Orchestrator
    → (task_id agent_name : Option String) → (status : Option ResultStatus) → (limit : Option ℕ)
    → Option (List AgentResult)
collect o task_id agent_name status none = none
collect o task_id agent_name status (some limit) = some (
    take limit (
      select
        (λ r.
          matches str_eq task_id r.task_id
          && matches str_eq agent_name r.agent_name
          && matches same_status status r.status)
        (reverse o.history)))

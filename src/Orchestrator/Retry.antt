-- ===== src/Orchestrator/Retry.antt =====
-- `dispatch_with_retry`.
use jarvis.Prelude.{ℕ, zero, suc, ◌+◌, Bool, true, false, if◌then◌else◌, ◌==◌, Option, some, none}
use jarvis.Json.{ℤ, pos, negsuc}
use jarvis.Orchestrator.Agent.{Agent, AgentTask, Probe, reset, has_pending_execution}
use jarvis.Orchestrator.Table.{
  AgentResult, ResultStatus, success, timeout, busy, failed, after_retries, Orchestrator, Execution,
  find_agent, set_agent, on_agent, with_agents, record_result, count_error,
}
use jarvis.Orchestrator.Dispatch.{dispatch}

-- What is seen before, during and after an attempt, and what becomes of its task.
pub record Attempt : Type 0 where
  pub before : Probe
  pub during : Probe
  pub duration : ℕ
  pub execution : Execution
  pub after : Probe

-- What the loop does with a result.
pub data Verdict : Type 0 where
  won still_pending transient lasting : Verdict

abbrev pub is_transient : ResultStatus → Bool
is_transient busy = true
is_transient timeout = true
is_transient _ = false

abbrev pub is_success : ResultStatus → Bool
is_success success = true
is_success _ = false

abbrev pub look_found : Orchestrator → Probe → Option Agent → Orchestrator × Bool
look_found o p none = (o, false)
look_found o p (some agent) =
    let (seen, pending) = has_pending_execution p agent in
    (with_agents o (set_agent seen o.agents), pending)

-- `agent.has_pending_execution()` of the task's agent, if there is one.
abbrev pub look_pending : Orchestrator → Probe → AgentTask → Orchestrator × Bool
look_pending o p task = look_found o p (find_agent o.agents task.agent_name)

abbrev pub count_retries : ℕ → Orchestrator → Orchestrator
count_retries attempt o = record o {
  stats = record o.stats { total_retries = o.stats.total_retries + attempt };
}

abbrev pub prepare : Attempt → AgentTask → (attempt : ℕ) → Orchestrator → Orchestrator
prepare a task attempt o =
    if attempt == 0 then o else with_agents o (on_agent (reset a.before) o.agents task.agent_name)

-- One round of the loop, up to the decision to go on.
pub record Round : Type 0 where
  pub orchestrator : Orchestrator
  pub result : AgentResult
  pub declared : Bool
  pub verdict : Verdict

unfoldable pub one_attempt : Attempt → AgentTask → (attempt : ℕ) → Orchestrator → Round
one_attempt a task attempt o =
    let (after, result, source) =
      dispatch (prepare a task attempt o) a.during task a.duration a.execution in
    let declared : Bool = elim source [ none ↦ false | some d ↦ d ] in
    let (looked, pending) = look_pending after a.after task in
    if is_success result.status
    then record {
      orchestrator = count_retries attempt after;
      result = result;
      declared = declared;
      verdict = won;
    }
    else if is_transient result.status
    then record {
      orchestrator = looked;
      result = result;
      declared = declared;
      verdict = if pending then still_pending else transient;
    }
    else record { orchestrator = after; result = result; declared = declared; verdict = lasting }

-- After the loop.
abbrev pub give_up : (max_retries : ℕ) → Round → Orchestrator × AgentResult
give_up max_retries r =
    let last = record r.result {
      status = failed;
      error = after_retries r.result.error max_retries;
    } in
    if r.declared
    then (r.orchestrator, r.result)
    else (count_error (record_result last r.orchestrator), last)

abbrev pub leave : (max_retries : ℕ) → Round → Verdict → Orchestrator × AgentResult
leave max_retries r won = (r.orchestrator, r.result)
leave max_retries r still_pending = (r.orchestrator, r.result)
leave max_retries r _ = give_up max_retries r

abbrev pub is_retried : Verdict → Bool
is_retried transient = true
is_retried _ = false

-- `left` is max_retries - attempt.
unfoldable pub retry_loop :
    (ℕ → Attempt)
    → AgentTask
    → (max_retries attempt left : ℕ) → Orchestrator
    → Orchestrator × AgentResult
retry_loop outcomes task max_retries attempt zero o =
    let r = one_attempt (outcomes attempt) task attempt o in leave max_retries r r.verdict
retry_loop outcomes task max_retries attempt (suc left) o =
    let r = one_attempt (outcomes attempt) task attempt o in
    let rest = retry_loop outcomes task max_retries (suc attempt) left r.orchestrator in
    if is_retried r.verdict then rest else leave max_retries r r.verdict

-- `none` is None: with a negative `max_retries` the loop has no round.
unfoldable pub dispatch_with_retry :
    (ℕ → Attempt) → AgentTask → (max_retries : ℤ) → Orchestrator → Orchestrator × Option AgentResult
dispatch_with_retry outcomes task (negsuc n) o = (o, none)
dispatch_with_retry outcomes task (pos max_retries) o =
    let end = retry_loop outcomes task max_retries 0 max_retries o in (end.0, some end.1)

-- ===== src/Orchestrator/Outcome.antt =====
-- What an execution comes to: what the end of its dispatch leaves of the agent, and what it counts.
use jarvis.Prelude.{ℕ, ◌+◌, ◌≡◌, Bool, true, false, not, ◌||◌, if◌then◌else◌, some, none}
use jarvis.Orchestrator.Agent.{Agent, idle, error, Probe, unless_shut_down, has_pending_execution}
use jarvis.Orchestrator.Table.{
  WorkerRecord, WorkerTaskStatus, succeeded, worker_timeout, worker_cancelled, Execution, returns,
  returns_uncopyable, raises_timeout, raises, outlives, worker_rejects, worker_raises,
  worker_answers, is_terminal,
}

pub data Outcome : Type 0 where
  succeeds fails times_out worker_fails leaves_worker rejected cancelled fails_late : Outcome
  leaves_thread : ℕ → Outcome

-- A confirmed record that is terminal.
abbrev pub outcome_of_record : WorkerRecord → WorkerTaskStatus → Outcome
outcome_of_record r succeeded = elim r.decoded [ none ↦ fails | some output ↦ succeeds ]
outcome_of_record r worker_timeout = times_out
outcome_of_record r worker_cancelled = cancelled
outcome_of_record r _ = fails

abbrev pub outcome_of : Execution → Outcome
outcome_of (returns output) = succeeds
outcome_of (returns_uncopyable output text) = fails_late
outcome_of raises_timeout = times_out
outcome_of (raises text) = fails
outcome_of (outlives thread) = leaves_thread thread
outcome_of (worker_rejects text) = rejected
outcome_of (worker_raises text) = worker_fails
outcome_of (worker_answers none) = leaves_worker
outcome_of (worker_answers (some r)) =
    if not (is_terminal r.status) || not r.termination_confirmed
    then leaves_worker
    else outcome_of_record r r.status

-- The agent before and after: its counters, its status, whether an error can be recovered from, and what
-- is left to run.
abbrev pub Leaves : Probe → Outcome → Agent → Agent → Type 0
Leaves p succeeds a b =
    (b.tasks_completed ≡ a.tasks_completed + 1)
    × (b.errors_count ≡ a.errors_count)
    × (b.status ≡ unless_shut_down a.status idle)
    × (b.current_task ≡ none)
Leaves p fails a b =
    (b.tasks_completed ≡ a.tasks_completed)
    × (b.errors_count ≡ a.errors_count + 1)
    × (b.status ≡ unless_shut_down a.status error)
    × (b.error_recoverable ≡ true)
Leaves p times_out a b =
    (b.tasks_completed ≡ a.tasks_completed)
    × (b.errors_count ≡ a.errors_count + 1)
    × (b.status ≡ unless_shut_down a.status error)
    × (b.error_recoverable ≡ false)
Leaves p worker_fails a b =
    (b.tasks_completed ≡ a.tasks_completed)
    × (b.status ≡ unless_shut_down a.status error)
    × (b.error_recoverable ≡ not (has_pending_execution p a).1)
Leaves p leaves_worker a b =
    (b.tasks_completed ≡ a.tasks_completed)
    × (b.status ≡ unless_shut_down a.status error)
    × (b.pending_declared_worker ≡ true)
    × (b.error_recoverable ≡ false)
Leaves p (leaves_thread thread) a b =
    (b.tasks_completed ≡ a.tasks_completed)
    × (b.errors_count ≡ a.errors_count + 1)
    × (b.status ≡ unless_shut_down a.status error)
    × (b.pending_thread ≡ some thread)
    × (b.error_recoverable ≡ false)
Leaves p fails_late a b =
    (b.tasks_completed ≡ a.tasks_completed + 1)
    × (b.errors_count ≡ a.errors_count + 1)
    × (b.status ≡ unless_shut_down a.status error)
Leaves p _ a b =
    (b.tasks_completed ≡ a.tasks_completed)
    × (b.errors_count ≡ a.errors_count)
    × (b.status ≡ unless_shut_down a.status idle)
    × (b.current_task ≡ none)

abbrev pub successes : Outcome → ℕ
successes succeeds = 1
successes fails_late = 1
successes _ = 0

abbrev pub errors : Outcome → ℕ
errors fails = 1
errors worker_fails = 1
errors rejected = 1
errors fails_late = 1
errors _ = 0

abbrev pub timeouts : Outcome → ℕ
timeouts times_out = 1
timeouts leaves_worker = 1
timeouts (leaves_thread thread) = 1
timeouts _ = 0

-- The result cannot be copied, so the agent is ended twice.
abbrev pub is_late : Outcome → Bool
is_late fails_late = true
is_late _ = false

-- ===== src/Orchestrator/Accounting.antt =====
-- What a dispatch counts and records, and how often a task is dispatched.
use jarvis.Prelude.{
  ℕ, ◌+◌, ◌≡◌, inl, inr, refl, sym, ap, ◌∙◌, Bool, true, false, Bool-cases, Option-cases, not, ◌&&◌,
  ◌||◌, if◌then◌else◌, Option, some, none, arith,
}
use mathlib.Core.Path.{subst}
use jarvis.Json.{null}
use jarvis.RoleTools.Broker.{append_bounded}
use jarvis.Orchestrator.Agent.{Agent, AgentTask, Probe, is_some, try_assign}
use jarvis.Orchestrator.Table.{
  AgentResult, Orchestrator, Execution, returns, returns_uncopyable, raises_timeout, raises,
  outlives, worker_rejects, worker_raises, worker_answers, WorkerRecord, WorkerTaskStatus,
  succeeded, worker_timeout, worker_cancelled, is_terminal, find_agent, count_dispatched, result_of,
  error, shutting_down, orchestrator_history_limit,
}
use jarvis.Orchestrator.Outcome.{
  Outcome, outcome_of_record, outcome_of, successes, errors, timeouts,
}
use jarvis.Orchestrator.Dispatch.{
  Begun, begin_tried, begin_found, refused, begun, begin_dispatch, finish_record, finish_dispatch,
  dispatch,
}

-- The statistics and the history at the end of an execution.
abbrev pub Finished : Orchestrator → Outcome → Orchestrator × AgentResult → Type 0
Finished o outcome end =
    (end.0.stats.total_dispatched ≡ o.stats.total_dispatched)
    × (end.0.stats.total_success ≡ o.stats.total_success + successes outcome)
    × (end.0.stats.total_errors ≡ o.stats.total_errors + errors outcome)
    × (end.0.stats.total_timeouts ≡ o.stats.total_timeouts + timeouts outcome)
    × (end.0.history ≡ append_bounded orchestrator_history_limit o.history end.1)

finish_record-Finished :
    (o : Orchestrator) (held : Bool) (task : AgentTask) (duration : ℕ) (r : WorkerRecord)
    (status : WorkerTaskStatus)
    → Finished o (outcome_of_record r status) (finish_record o held task duration r status)
finish_record-Finished o held task duration r succeeded = elim (Option-cases r.decoded) [
  | inl bad ↦ rw bad (refl, omega arith, omega arith, omega arith, refl)
  | inr (output, good) ↦ rw good (refl, omega arith, omega arith, omega arith, refl)
]
finish_record-Finished o held task duration r worker_timeout =
    (refl, omega arith, omega arith, omega arith, refl)
finish_record-Finished o held task duration r worker_cancelled =
    (refl, omega arith, omega arith, omega arith, refl)
finish_record-Finished o held task duration r _ =
    (refl, omega arith, omega arith, omega arith, refl)

finish_dispatch-Finished :
    (o : Orchestrator) (p : Probe) (held : Bool) (task : AgentTask) (duration : ℕ)
    (execution : Execution)
    → Finished o (outcome_of execution) (finish_dispatch o p held task duration execution)
unfolding finish_dispatch
finish_dispatch-Finished o p held task duration (returns output) =
    (refl, omega arith, omega arith, omega arith, refl)
finish_dispatch-Finished o p held task duration (returns_uncopyable output text) =
    (refl, omega arith, omega arith, omega arith, refl)
finish_dispatch-Finished o p held task duration raises_timeout =
    (refl, omega arith, omega arith, omega arith, refl)
finish_dispatch-Finished o p held task duration (raises text) =
    (refl, omega arith, omega arith, omega arith, refl)
finish_dispatch-Finished o p held task duration (outlives thread) =
    (refl, omega arith, omega arith, omega arith, refl)
finish_dispatch-Finished o p held task duration (worker_rejects text) =
    (refl, omega arith, omega arith, omega arith, refl)
finish_dispatch-Finished o p held task duration (worker_raises text) =
    (refl, omega arith, omega arith, omega arith, refl)
finish_dispatch-Finished o p held task duration (worker_answers none) =
    (refl, omega arith, omega arith, omega arith, refl)
finish_dispatch-Finished o p held task duration (worker_answers (some r)) =
    elim (Bool-cases (not (is_terminal r.status) || not r.termination_confirmed)) [
      | inl open_end ↦ rw open_end (refl, omega arith, omega arith, omega arith, refl)
      | inr closed ↦ rw closed (finish_record-Finished o held task duration r r.status)
    ]

-- What the first part counts: an error for a refusal, unless the orchestrator is shut down.
abbrev refusals : Orchestrator → Begun → ℕ
refusals o (refused r) = if o.is_shut_down then 0 else 1
refusals o (begun declared) = 0

abbrev is_begun : Begun → Bool
is_begun (refused r) = false
is_begun (begun declared) = true

abbrev Started : Orchestrator → Orchestrator × Begun → Type 0
Started o start =
    (start.0.stats.total_dispatched ≡ o.stats.total_dispatched + 1)
    × (start.0.stats.total_success ≡ o.stats.total_success)
    × (start.0.stats.total_errors ≡ o.stats.total_errors + refusals o start.1)
    × (start.0.stats.total_timeouts ≡ o.stats.total_timeouts)
    × (start.0.history ≡ o.history)
    × ((is_begun start.1 && o.is_shut_down) ≡ false)

begin_tried-Started :
    (o : Orchestrator) (task : AgentTask) (declared : Bool) (tried : Agent) (done : Bool)
    → o.is_shut_down ≡ false
    → Started o (begin_tried (count_dispatched o) task declared tried done)
begin_tried-Started o task declared tried true up = (refl, refl, omega arith, refl, refl, up)
begin_tried-Started o task declared tried false up =
    (refl, refl, rw up (omega arith), refl, refl, refl)

begin_found-Started :
    (o : Orchestrator) (p : Probe) (task : AgentTask) (found : Option Agent)
    → o.is_shut_down ≡ false
    → Started o (begin_found (count_dispatched o) p task found)
begin_found-Started o p task none up = (refl, refl, rw up (omega arith), refl, refl, refl)
begin_found-Started o p task (some agent) up =
    begin_tried-Started o task agent.declared_worker (try_assign p agent task).0
      (try_assign p agent task).1 up

begin_dispatch-Started :
    (o : Orchestrator) (p : Probe) (task : AgentTask) → Started o (begin_dispatch o p task)
unfolding begin_dispatch
begin_dispatch-Started o p task =
    let found = begin_found (count_dispatched o) p task (find_agent o.agents task.agent_name) in
    let answer = λ (b : Bool).
      if b
      then (count_dispatched o, refused (result_of task 0 error shutting_down null))
      else found in
    elim (Bool-cases o.is_shut_down) [
      | inl closed ↦
          subst (λ b. Started o (answer b)) (sym closed)
            (refl, refl, rw closed (omega arith), refl, refl, refl)
      | inr up ↦
          subst (λ b. Started o (answer b)) (sym up)
            (begin_found-Started o p task (find_agent o.agents task.agent_name) up)
    ]

-- `dispatch`; the last part of its answer tells whether an agent has executed the task.
abbrev pub Accounted : Orchestrator → Outcome → Orchestrator × AgentResult × Option Bool → Type 0
Accounted o outcome end =
    let ran = is_some end.2 in
    (end.0.stats.total_dispatched ≡ o.stats.total_dispatched + 1)
    × (end.0.stats.total_success ≡ o.stats.total_success + (if ran then successes outcome else 0))
    × (end.0.stats.total_errors
        ≡ o.stats.total_errors + (if ran then errors outcome else if o.is_shut_down then 0 else 1))
    × (end.0.stats.total_timeouts ≡ o.stats.total_timeouts + (if ran then timeouts outcome else 0))
    × (end.0.history
        ≡ (if ran then append_bounded orchestrator_history_limit o.history end.1 else o.history))
    × ((ran && o.is_shut_down) ≡ false)

continued :
    (o : Orchestrator) (p : Probe) (task : AgentTask) (duration : ℕ) (execution : Execution)
    (start : Orchestrator) (answer : Begun)
    → Started o (start, answer)
    → Accounted o (outcome_of execution) (elim answer [
      | refused r ↦ (start, r, none)
      | begun declared ↦
          let end = finish_dispatch start p true task duration execution in
          (end.0, end.1, some declared)
    ])
continued o p task duration execution start (refused r)
      (dispatched, success, error_count, late, history, up) =
    (dispatched, omega (arith, success), error_count, omega (arith, late), history, up)
continued o p task duration execution start (begun declared)
      (dispatched, success, error_count, late, history, up) =
    let end = finish_dispatch start p true task duration execution in
    let (same, more, wrong, slow, recorded) =
      finish_dispatch-Finished start p true task duration execution in
    (
      same ∙ dispatched,
      omega (arith, more, success),
      omega (arith, wrong, error_count),
      omega (arith, slow, late),
      recorded ∙ ap (λ h. append_bounded orchestrator_history_limit h end.1) history,
      up,
    )

-- The statistics of one dispatch: it is counted as dispatched. If an agent executes the task, the outcome
-- is counted: a returned result as a success, an exception, a rejection or a failed worker as an error, a
-- timeout or what goes on running as a timeout, a result that cannot be copied both as a success and as
-- an error, a confirmed cancellation as nothing. The result is recorded, in a history of at most 1000
-- results. If none does, an error is counted, unless the orchestrator is shut down, when none ever
-- does, and nothing is recorded.
pub dispatch_lem :
    (o : Orchestrator) (p : Probe) (task : AgentTask) (duration : ℕ) (execution : Execution)
    → Accounted o (outcome_of execution) (dispatch o p task duration execution)
unfolding dispatch
dispatch_lem o p task duration execution =
    let start = begin_dispatch o p task in
    continued o p task duration execution start.0 start.1 (begin_dispatch-Started o p task)

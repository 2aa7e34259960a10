-- ===== src/Orchestrator/Attempts.antt =====
-- How often `dispatch_with_retry` dispatches its task.
use jarvis.Prelude.{
  ℕ, zero, suc, ◌+◌, ◌≤◌, ◌≡◌, ◌≢◌, inl, inr, refl, sym, ap, ◌∙◌, Bool, true, false, not, ◌&&◌,
  Bool-cases, ◌==◌, Option, some, none, arith,
}
use jarvis.Json.{ℤ, pos, negsuc}
use jarvis.Orchestrator.Agent.{Agent, AgentTask, Probe}
use jarvis.Orchestrator.Table.{AgentResult, Orchestrator, find_agent}
use jarvis.Orchestrator.Dispatch.{dispatch}
use jarvis.Orchestrator.Accounting.{dispatch_lem}
use jarvis.Orchestrator.Retry.{
  Attempt, Verdict, won, still_pending, transient, lasting, Round, is_success, is_transient,
  look_found, look_pending, prepare, one_attempt, give_up, leave, is_retried, retry_loop,
  dispatch_with_retry,
}

abbrev dispatches : Orchestrator → ℕ
dispatches o = o.stats.total_dispatched

look_found-dispatches :
    (o : Orchestrator) (p : Probe) (found : Option Agent)
    → dispatches (look_found o p found).0 ≡ dispatches o
look_found-dispatches o p none = refl
look_found-dispatches o p (some agent) = refl

prepare-dispatches :
    (a : Attempt) (task : AgentTask) (attempt : ℕ) (o : Orchestrator)
    → dispatches (prepare a task attempt o) ≡ dispatches o
prepare-dispatches a task attempt o = elim (Bool-cases (attempt == 0)) [
  | inl first ↦ rw first refl
  | inr later ↦ rw later refl
]

one_attempt-dispatches :
    (a : Attempt) (task : AgentTask) (attempt : ℕ) (o : Orchestrator)
    → dispatches (one_attempt a task attempt o).orchestrator ≡ dispatches o + 1
unfolding one_attempt
one_attempt-dispatches a task attempt o =
    let prepared = prepare a task attempt o in
    let end = dispatch prepared a.during task a.duration a.execution in
    let counted = dispatch_lem prepared a.during task a.duration a.execution in
    let more : dispatches end.0 ≡ dispatches o + 1 =
      counted.0 ∙ ap (λ n. n + 1) (prepare-dispatches a task attempt o) in
    let looked = look_found-dispatches end.0 a.after (find_agent end.0.agents task.agent_name) in
    elim (Bool-cases (is_success end.1.status)) [
      | inl good ↦ rw good more
      | inr bad ↦ elim (Bool-cases (is_transient end.1.status)) [
        | inl short ↦ rw (bad, short) (looked ∙ more)
        | inr long ↦ rw (bad, long) more
      ]
    ]

give_up-dispatches :
    (max_retries : ℕ) (r : Round) → dispatches (give_up max_retries r).0 ≡ dispatches r.orchestrator
give_up-dispatches max_retries r = elim (Bool-cases r.declared) [
  | inl declared ↦ rw declared refl
  | inr local ↦ rw local refl
]

leave-dispatches :
    (max_retries : ℕ) (r : Round) (v : Verdict)
    → dispatches (leave max_retries r v).0 ≡ dispatches r.orchestrator
leave-dispatches max_retries r won = refl
leave-dispatches max_retries r still_pending = refl
leave-dispatches max_retries r transient = give_up-dispatches max_retries r
leave-dispatches max_retries r lasting = give_up-dispatches max_retries r

-- The dispatch of an attempt, and what the rest of its round sees.
abbrev pub dispatched :
    Attempt → AgentTask → (attempt : ℕ) → Orchestrator → Orchestrator × AgentResult
dispatched a task attempt o =
    let end = dispatch (prepare a task attempt o) a.during task a.duration a.execution in
    (end.0, end.1)

-- The attempt has met a busy agent or a timeout, and nothing of it is left to run.
abbrev pub is_passing : Attempt → AgentTask → (attempt : ℕ) → Orchestrator → Bool
is_passing a task attempt o =
    let end = dispatched a task attempt o in
    not (is_success end.1.status)
    && is_transient end.1.status
    && not (look_pending end.0 a.after task).1

one_attempt-is_passing :
    (a : Attempt) (task : AgentTask) (attempt : ℕ) (o : Orchestrator)
    → is_retried (one_attempt a task attempt o).verdict ≡ is_passing a task attempt o
unfolding one_attempt
one_attempt-is_passing a task attempt o =
    let end = dispatched a task attempt o in
    elim (Bool-cases (is_success end.1.status)) [
      | inl good ↦ rw good refl
      | inr bad ↦ elim (Bool-cases (is_transient end.1.status)) [
        | inr long ↦ rw (bad, long) refl
        | inl short ↦ elim (Bool-cases (look_pending end.0 a.after task).1) [
          | inl pending ↦ rw (bad, short, pending) refl
          | inr free ↦ rw (bad, short, free) refl
        ]
      ]
    ]

-- From attempt `n` and this state on: how many attempts follow, each but the last passing, and the last
-- not if there is one left.
pub data Attempts (outcomes : ℕ → Attempt) (task : AgentTask)
    : (attempt left : ℕ) → Orchestrator → (followed : ℕ) → Type 0 where
  exhausted : (attempt : ℕ) (o : Orchestrator) → Attempts outcomes task attempt zero o 1
  settled :
      (attempt left : ℕ) (o : Orchestrator)
      → is_passing (outcomes attempt) task attempt o ≡ false
      → Attempts outcomes task attempt (suc left) o 1
  retried :
      (attempt left : ℕ) (o : Orchestrator) (followed : ℕ)
      → is_passing (outcomes attempt) task attempt o ≡ true
      → Attempts outcomes task
          (suc attempt)
          left
          (one_attempt (outcomes attempt) task attempt o).orchestrator
          followed
      → Attempts outcomes task attempt (suc left) o (suc followed)

Attempts-bounds :
    {outcomes : ℕ → Attempt} {task : AgentTask} {attempt left : ℕ} {o : Orchestrator} {followed : ℕ}
    → Attempts outcomes task attempt left o followed
    → (1 ≤ followed) × (followed ≤ left + 1)
Attempts-bounds (exhausted attempt o) = (omega arith, omega arith)
Attempts-bounds (settled attempt left o h) = (omega arith, omega arith)
Attempts-bounds (retried attempt left o followed h rest) =
    let (low, high) = Attempts-bounds rest in (omega arith, omega (arith, high))

retry_loop-Attempts :
    (outcomes : ℕ → Attempt) (task : AgentTask) (max_retries attempt left : ℕ) (o : Orchestrator)
    → (followed : ℕ) × Attempts outcomes task attempt left o followed
      × (dispatches (retry_loop outcomes task max_retries attempt left o).0
          ≡ dispatches o + followed)
unfolding retry_loop
retry_loop-Attempts outcomes task max_retries attempt zero o =
    let r = one_attempt (outcomes attempt) task attempt o in
    let one = one_attempt-dispatches (outcomes attempt) task attempt o in
    let last = leave-dispatches max_retries r r.verdict in
    (1, exhausted attempt o, omega (arith, one, last))
retry_loop-Attempts outcomes task max_retries attempt (suc left) o =
    let r = one_attempt (outcomes attempt) task attempt o in
    let one = one_attempt-dispatches (outcomes attempt) task attempt o in
    let last = leave-dispatches max_retries r r.verdict in
    let same = one_attempt-is_passing (outcomes attempt) task attempt o in
    let (followed, rest, more) =
      retry_loop-Attempts outcomes task max_retries (suc attempt) left r.orchestrator in
    elim (Bool-cases (is_retried r.verdict)) [
      | inl again ↦
          let total : dispatches
                (retry_loop outcomes task max_retries (suc attempt) left r.orchestrator).0
              ≡ dispatches o + suc followed =
            omega (arith, one, more) in
          rw again (suc followed, retried attempt left o followed (sym same ∙ again) rest, total)
      | inr enough ↦
          let total : dispatches (leave max_retries r r.verdict).0 ≡ dispatches o + 1 =
            omega (arith, one, last) in
          rw enough (1, settled attempt left o (sym same ∙ enough), total)
    ]

-- What a call comes to: with a negative `max_retries` nothing is dispatched and there is no result.
abbrev pub Tried :
    (ℕ → Attempt)
    → AgentTask
    → (max_retries : ℤ) → Orchestrator
    → Orchestrator × Option AgentResult
    → Type 0
Tried outcomes task (negsuc n) o end = (end.0 ≡ o) × (end.1 ≡ none)
Tried outcomes task (pos max_retries) o end =
    (made : ℕ) × Attempts outcomes task 0 max_retries o made
    × (1 ≤ made)
    × (made ≤ max_retries + 1)
    × (end.0.stats.total_dispatched ≡ o.stats.total_dispatched + made)
    × (end.1 ≢ none)

-- With no negative `max_retries` the task is dispatched at least once and at most max_retries + 1 times,
-- and there is a result: again exactly as long as attempts are left and the last one met a busy agent or
-- a timeout with nothing left to run. With a negative one nothing is dispatched and the result is None.
pub dispatch_with_retry-dispatches :
    (outcomes : ℕ → Attempt) (task : AgentTask) (max_retries : ℤ) (o : Orchestrator)
    → Tried outcomes task max_retries o (dispatch_with_retry outcomes task max_retries o)
unfolding dispatch_with_retry
dispatch_with_retry-dispatches outcomes task (negsuc n) o = (refl, refl)
dispatch_with_retry-dispatches outcomes task (pos max_retries) o =
    let (made, attempts, counted) = retry_loop-Attempts outcomes task max_retries 0 max_retries o in
    let (low, high) = Attempts-bounds attempts in
    (made, attempts, low, high, counted, λ e. absurd (ground (arith, e)))

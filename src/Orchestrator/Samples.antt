-- ===== src/Orchestrator/Samples.antt =====
-- An agent, a table and a retry, and the theorems at them.
use jarvis.Prelude.{ℕ, zero, suc, ◌≤◌, ◌≡◌, refl, true, false, ◌||◌, ◌==◌, arith, [], ◌∷◌}
use jarvis.Json.{pos, null, no_member}
use jarvis.Orchestrator.Agent.{
  Agent, AgentTask, Probe, new_agent, try_assign, quarantine, fail, reset, reap,
}
use jarvis.Orchestrator.Exclusion.{
  Config, Reach, registered, next, tries, ends, failed, left_thread, IsQuiet, reset-available,
  Reach-IsValid, IsValid,
}
use jarvis.Orchestrator.Outliving.{Left, Run, start, move, Sees, exclusive}
use jarvis.Orchestrator.Table.{
  Orchestrator, raises, raises_timeout, returns, value, new_orchestrator, register_agent,
}
use jarvis.Orchestrator.Outcome.{fails}
use jarvis.Orchestrator.Dispatch.{dispatch}
use jarvis.Orchestrator.Retry.{Attempt, dispatch_with_retry}
use jarvis.Orchestrator.Accounting.{Accounted, dispatch_lem}
use jarvis.Orchestrator.Attempts.{Tried, dispatch_with_retry-dispatches}

abbrev quiet : Probe
quiet = record { is_alive = λ thread. false; worker_pending = false }

abbrev quiet-IsQuiet : IsQuiet quiet
quiet-IsQuiet = (λ thread. refl, refl)

abbrev task : AgentTask
task = record {
  task_id = "t1";
  agent_name = "analyzer";
  prompt = "Summarize";
  timeout = 30;
  priority = 0;
  metadata = no_member;
}

abbrev fresh : Agent
fresh = new_agent "analyzer" false ("analysis" ∷ [])

abbrev assigned : Agent
assigned = (try_assign quiet fresh task).0

abbrev Config_of : Agent → ℕ → Config
Config_of a n = record { agent = a; executing = n }

abbrev after_assignment : Reach "analyzer" false ("analysis" ∷ []) (Config_of assigned 1)
unfolding try_assign new_agent reap
after_assignment = next registered (tries quiet task fresh 0)

abbrev after_failure : Reach "analyzer" false ("analysis" ∷ []) (Config_of (fail true assigned) 0)
after_failure = next after_assignment (ends (failed true) assigned 0)

-- The thread 4 goes on running.
abbrev lively : Probe
lively = record { is_alive = λ thread. thread == 4; worker_pending = false }

abbrev left : Left
left = record { runs = λ other. other == 4 || false; worker_runs = false }

nothing_left : (p : Probe) → Sees p (record { runs = λ thread. false; worker_runs = false })
nothing_left p = (λ thread h. absurd (ground (arith, h)), λ h. absurd (ground (arith, h)))

abbrev after_timeout :
    Run "analyzer" false ("analysis" ∷ []) (Config_of (quarantine lively 4 assigned) 0) left
unfolding try_assign new_agent reap
after_timeout =
    move (move start (tries quiet task fresh 0) (nothing_left quiet))
      (ends (left_thread lively 4) assigned 0) (nothing_left lively)

lively-Sees : Sees lively left
lively-Sees = (λ thread h. ground (arith, h), λ h. absurd (ground (arith, h)))

exclusive_example :
    (0 ≤ 1)
    × (◌≡◌ {A = ℕ} 0 1 → (try_assign lively (quarantine lively 4 assigned) task).1 ≡ false)
    × ((thread : ℕ)
        → left.runs thread ≡ true
        → (try_assign lively (quarantine lively 4 assigned) task).1 ≡ false)
    × (left.worker_runs ≡ true → (try_assign lively (quarantine lively 4 assigned) task).1 ≡ false)
exclusive_example = exclusive after_timeout lively task lively-Sees

Reach-IsValid_example : IsValid (Config_of assigned 1)
Reach-IsValid_example = Reach-IsValid after_assignment

reset-available_example : (try_assign quiet (reset quiet (fail true assigned)) task).1 ≡ true
unfolding fail try_assign new_agent reap
reset-available_example = reset-available after_failure quiet task quiet-IsQuiet refl refl

abbrev table : Orchestrator
table = register_agent new_orchestrator quiet "analyzer" false ("analysis" ∷ [])

dispatch_lem_example : Accounted table fails (dispatch table quiet task 5 (raises "no input"))
dispatch_lem_example = dispatch_lem table quiet task 5 (raises "no input")

-- The first attempt times out, the second returns.
abbrev attempts : ℕ → Attempt
attempts n = record {
  before = quiet;
  during = quiet;
  duration = 5;
  execution = elim n [ zero ↦ raises_timeout | suc m ↦ returns (value null) ];
  after = quiet;
}

dispatch_with_retry-dispatches_example :
    Tried attempts task (pos 2) table (dispatch_with_retry attempts task (pos 2) table)
dispatch_with_retry-dispatches_example = dispatch_with_retry-dispatches attempts task (pos 2) table

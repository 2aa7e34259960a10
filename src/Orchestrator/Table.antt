-- ===== src/Orchestrator/Table.antt =====
-- The table of agents of an `Orchestrator`, its results and its statistics.
use jarvis.Prelude.{
  ℕ, ◌+◌, Bool, true, false, not, if◌then◌else◌, List, [], ◌∷◌, select, Option, some, none, String,
  str_eq,
}
use mathlib.Core.List.{map}
use jarvis.Json.{Value}
use jarvis.RoleTools.Broker.{append_bounded}
use jarvis.Orchestrator.Agent.{
  Agent, AgentTask, Probe, new_agent, recover_from_error, can_unregister, shutdown_agent,
}

abbrev pub orchestrator_history_limit : ℕ
orchestrator_history_limit = 1000

-- The texts of `AgentResult.error`, with the values that they hold.
pub data ErrorText : Type 0 where
  no_error shutting_down : ErrorText
  not_found is_busy message : String → ErrorText
  timed_out_after : ℕ → ErrorText
  after_retries : ErrorText → ℕ → ErrorText

-- `AgentResult.status`; `tag` is any other, which a handler's own result may have.
pub data ResultStatus : Type 0 where
  success error timeout busy cancelled failed : ResultStatus
  tag : String → ResultStatus

pub record AgentResult : Type 0 where
  pub task_id : String
  pub agent_name : String
  pub result : Value
  pub error : ErrorText
  pub duration_ms : ℕ
  pub status : ResultStatus

pub record Stats : Type 0 where
  pub total_dispatched : ℕ
  pub total_success : ℕ
  pub total_errors : ℕ
  pub total_timeouts : ℕ
  pub total_retries : ℕ

pub record Orchestrator : Type 0 where
  pub agents : List Agent
  pub history : List AgentResult
  pub is_shut_down : Bool
  pub stats : Stats

-- A handler's output: a value, or an `AgentResult` of its own.
pub data Output : Type 0 where
  value : Value → Output
  own_result : AgentResult → Output

-- `WorkerTaskStatus`.
pub data WorkerTaskStatus : Type 0 where
  queued running succeeded worker_failed worker_timeout worker_cancelled crashed : WorkerTaskStatus

abbrev pub is_terminal : WorkerTaskStatus → Bool
is_terminal queued = false
is_terminal running = false
is_terminal _ = true

-- `record`, with what `decode_result` makes of its result: `none` is the text that it raises with.
pub record WorkerRecord : Type 0 where
  pub status : WorkerTaskStatus
  pub termination_confirmed : Bool
  pub decoded : Option Output
  pub decode_error : String
  pub error : String

-- What becomes of a task that an agent executes: in a thread of this process, or in its worker. A
-- result that `deepcopy` raises on, with its text, is `returns_uncopyable`; what `decode_result` makes
-- can be copied.
pub data Execution : Type 0 where
  returns : Output → Execution
  returns_uncopyable : Output → (text : String) → Execution
  raises_timeout : Execution
  raises : String → Execution
  outlives : (thread : ℕ) → Execution
  worker_rejects worker_raises : String → Execution
  worker_answers : Option WorkerRecord → Execution

abbrev pub find_agent : List Agent → String → Option Agent
find_agent [] name = none
find_agent (a ∷ agents) name = if str_eq a.name name then some a else find_agent agents name

-- self._agents[name] = agent, for an agent of this name.
abbrev pub set_agent : Agent → List Agent → List Agent
set_agent agent [] = agent ∷ []
set_agent agent (a ∷ agents) =
    if str_eq a.name agent.name then agent ∷ agents else a ∷ set_agent agent agents

-- A method that is called on the agent of a name, if there is one.
abbrev pub on_agent : (Agent → Agent) → List Agent → String → List Agent
on_agent f [] name = []
on_agent f (a ∷ agents) name =
    if str_eq a.name name then f a ∷ agents else a ∷ on_agent f agents name

-- A method that is called on the agent that a dispatch holds; `held` tells whether that is still the
-- one of its name in the table.
abbrev pub on_held : (held : Bool) → (Agent → Agent) → List Agent → String → List Agent
on_held held f agents name = if held then on_agent f agents name else agents

unfoldable pub new_orchestrator : Orchestrator
new_orchestrator = record {
  agents = [];
  history = [];
  is_shut_down = false;
  stats = record {
    total_dispatched = 0;
    total_success = 0;
    total_errors = 0;
    total_timeouts = 0;
    total_retries = 0;
  };
}

abbrev pub with_agents : Orchestrator → List Agent → Orchestrator
with_agents o agents = record o { agents = agents }

-- `register_in_process`, `register_declared` and `register_worker`. The displaced agent is shut down if
-- it has a worker; it is no longer in the table then.
unfoldable pub register_agent :
    Orchestrator → Probe → String → (declared : Bool) → List String → Orchestrator
register_agent o p name declared capabilities =
    let fresh = new_agent name declared capabilities in
    elim (find_agent o.agents name) [
      | none ↦ with_agents o (set_agent fresh o.agents)
      | some current ↦
          let (seen, replaceable) = can_unregister p current in
          if not replaceable
          then with_agents o (set_agent seen o.agents)
          else with_agents o (set_agent fresh o.agents)
    ]

unfoldable pub unregister_agent : Orchestrator → Probe → String → Orchestrator × Bool
unregister_agent o p name = elim (find_agent o.agents name) [
  | none ↦ (o, false)
  | some agent ↦
      let (seen, removable) = can_unregister p agent in
      if not removable
      then (with_agents o (set_agent seen o.agents), false)
      else (with_agents o (select (λ a. not (str_eq a.name name)) o.agents), true)
]

unfoldable pub recover_agent : Orchestrator → Probe → String → Orchestrator × Bool
recover_agent o p name = elim (find_agent o.agents name) [
  | none ↦ (o, false)
  | some agent ↦
      let (recovered, done) = recover_from_error p agent in
      (with_agents o (set_agent recovered o.agents), done)
]

unfoldable pub shutdown : Orchestrator → Orchestrator
shutdown o = record o { is_shut_down = true; agents = map shutdown_agent o.agents }

-- `_record` of a result that can be copied.
abbrev pub record_result : AgentResult → Orchestrator → Orchestrator
record_result r o = record o { history = append_bounded orchestrator_history_limit o.history r }

abbrev pub count_dispatched : Orchestrator → Orchestrator
count_dispatched o = record o {
  stats = record o.stats { total_dispatched = o.stats.total_dispatched + 1 };
}

abbrev pub count_success : Orchestrator → Orchestrator
count_success o = record o { stats = record o.stats { total_success = o.stats.total_success + 1 } }

abbrev pub count_error : Orchestrator → Orchestrator
count_error o = record o { stats = record o.stats { total_errors = o.stats.total_errors + 1 } }

abbrev pub count_timeout : Orchestrator → Orchestrator
count_timeout o = record o {
  stats = record o.stats { total_timeouts = o.stats.total_timeouts + 1 };
}

abbrev pub result_of : AgentTask → ℕ → ResultStatus → ErrorText → Value → AgentResult
result_of task duration status text v = record {
  task_id = task.task_id;
  agent_name = task.agent_name;
  result = v;
  error = text;
  duration_ms = duration;
  status = status;
}

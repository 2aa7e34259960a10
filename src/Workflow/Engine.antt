-- ===== src/Workflow/Engine.antt =====
-- `WorkflowEngine` of src/core/brain/workflow_dag.py. The dispatch callback, the clock and the
-- order in which the threads of a layer end are the engine's environment.
pub mod Steps
pub mod Settled
pub mod Outcome
pub mod Order
use jarvis.Prelude.{
  ℕ, min, String, Bool, true, false, not, ◌&&◌, List, [], ◌∷◌, map, foldl, length, Option, none,
  some, if◌then◌else◌, str_eq, leb, elem, all, any, select, is_empty,
}
use jarvis.Json.{Value, int, pos}
use jarvis.Result.{Result, ok, err}
use jarvis.Workflow.Node.{WorkflowNode, node_ids, deps_of}
use jarvis.Workflow.Build.{Workflow}

pub data NodeStatus : Type 0 where
  pending running succeeded failed skipped : NodeStatus

pub data FailurePolicy : Type 0 where
  fail_fast continue : FailurePolicy

-- The text of `error`: of a raised exception, `f"{type(error).__name__}: {error}"`.
pub data NodeError : Type 0 where
  raised : String → NodeError
  dependency_did_not_succeed aborted_by_fail_fast : NodeError

pub record NodeResult : Type 0 where
  pub node_id : String
  pub status : NodeStatus
  pub output : Option Value
  pub error : Option NodeError
  pub started_at : ℕ
  pub finished_at : ℕ

-- What a run meets outside the engine. `completed` is the order of `as_completed`; the times are
-- readings of the clock, in its own unit.
pub record Env : Type 0 where
  pub dispatch : WorkflowNode → Result String Value
  pub dispatch_times : String → ℕ × ℕ
  pub completed : List String → List String
  pub run_times : ℕ × ℕ

pub record Engine : Type 0 where
  pub max_parallelism : ℕ
  pub failure_policy : FailurePolicy

pub record RunResult : Type 0 where
  pub workflow_id : String
  pub success : Bool
  pub layers : List (List String)
  pub results : String → NodeResult
  pub started_at : ℕ
  pub finished_at : ℕ

abbrev pub workflow_max_parallelism : ℕ
workflow_max_parallelism = 16

-- `WorkflowEngine.__init__`; `none` is its ValueError.
unfoldable pub new_engine : Value → FailurePolicy → Option Engine
new_engine (int (pos n)) policy =
    if leb 1 n && leb n workflow_max_parallelism
    then some (record { max_parallelism = n; failure_policy = policy })
    else none
new_engine _ policy = none

abbrev pub Results : Type 0
Results = String → NodeResult

abbrev result : String → NodeStatus → Option NodeError → NodeResult
result v status error = record {
  node_id = v;
  status = status;
  output = none;
  error = error;
  started_at = 0;
  finished_at = 0;
}

abbrev pub pending_result : String → NodeResult
pending_result v = result v pending none

abbrev pub skipped_result : String → NodeResult
skipped_result v = result v skipped (some dependency_did_not_succeed)

abbrev pub aborted_result : String → NodeResult
aborted_result v = result v skipped (some aborted_by_fail_fast)

abbrev pub is_succeeded : NodeStatus → Bool
is_succeeded succeeded = true
is_succeeded _ = false

abbrev pub is_failed : NodeStatus → Bool
is_failed failed = true
is_failed _ = false

abbrev is_pending : NodeStatus → Bool
is_pending pending = true
is_pending _ = false

-- workflow.nodes.get(node_id)
abbrev find_node : List WorkflowNode → String → Option WorkflowNode
find_node [] v = none
find_node (n ∷ nodes) v = if str_eq n.node_id v then some n else find_node nodes v

-- `WorkflowEngine.failed_nodes`, over the keys of `results`.
abbrev pub failed_nodes : List WorkflowNode → Results → List String
failed_nodes nodes results = select (λ v. is_failed (results v).status) (node_ids nodes)

-- results[node_id] = result
abbrev pub write : (String → NodeResult) → Results → String → Results
write f results v u = if str_eq v u then f v else results u

outcome : String → Result String Value → ℕ × ℕ → NodeResult
outcome v (ok output) (started, finished) = record {
  node_id = v;
  status = succeeded;
  output = some output;
  error = none;
  started_at = started;
  finished_at = finished;
}
outcome v (err error) (started, finished) = record {
  node_id = v;
  status = failed;
  output = none;
  error = some (raised error);
  started_at = started;
  finished_at = finished;
}

-- `_dependencies_satisfied`
abbrev pub satisfied : List WorkflowNode → Results → String → Bool
satisfied nodes results v = all (λ d. is_succeeded (results d).status) (deps_of nodes v)

abbrev pub any_failed : List WorkflowNode → Results → Bool
any_failed nodes results = any (λ v. is_failed (results v).status) (node_ids nodes)

abbrev pub stops : FailurePolicy → List WorkflowNode → Results → Bool
stops fail_fast nodes results = any_failed nodes results
stops continue nodes results = false

-- What the fail-fast policy leaves when it breaks out of the loop.
unfoldable pub abort : List WorkflowNode → Results → Results
abort nodes results v =
    if elem v (node_ids nodes) && is_pending (results v).status then aborted_result v else results v

module _ (env : Env) (nodes : List WorkflowNode) where
  -- `_execute_node`. An id that is no node is a KeyError, which `_run_layer` turns into a failure.
  unfoldable pub execute_node : String → NodeResult
  unfolding outcome
  execute_node v = elim (find_node nodes v) [
    | none ↦ result v failed (some (raised "KeyError"))
    | some node ↦ outcome v (env.dispatch node) (env.dispatch_times v)
  ]

  -- `_run_layer`: each result is written when its thread ends. The pool's size,
  -- `min(self._max_parallelism, len(layer))`, bounds how many run at once and decides no result.
  run_layer : List String → Results → Results
  run_layer layer results = foldl (write execute_node) results (env.completed layer)

  -- The body of the loop over the layers, up to the test of the failure policy.
  unfoldable pub step : List String → Results → Results
  unfolding run_layer
  step layer results =
      let runnable = select (satisfied nodes results) layer in
      let blocked = select (λ v. not (elem v runnable)) layer in
      let marked = foldl (write skipped_result) results blocked in
      if is_empty runnable then marked else run_layer runnable marked

  unfoldable pub run_layers : FailurePolicy → List (List String) → Results → Results
  run_layers policy [] results = results
  run_layers policy (layer ∷ layers) results =
      let after = step layer results in
      let rest = run_layers policy layers after in
      if stops policy nodes after then abort nodes after else rest

abbrev pub all_succeeded : List WorkflowNode → Results → Bool
all_succeeded nodes results = all (λ v. is_succeeded (results v).status) (node_ids nodes)

abbrev raises : FailurePolicy → Bool → Bool
raises fail_fast success = not success
raises continue success = false

-- `run`: `err` is WorkflowExecutionError, with the ids that its message lists.
unfoldable pub run : Env → Engine → Workflow → Result (List String) RunResult
run env engine w =
    let results = run_layers env w.nodes engine.failure_policy w.layers pending_result in
    let success = all_succeeded w.nodes results in
    if raises engine.failure_policy success
    then err (failed_nodes w.nodes results)
    else ok (record {
      workflow_id = w.workflow_id;
      success = success;
      layers = w.layers;
      results = results;
      started_at = env.run_times.0;
      finished_at = env.run_times.1;
    })

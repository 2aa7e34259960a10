-- ===== src/Workflow/Samples.antt =====
-- Small workflows, and the theorems at them.
use jarvis.Prelude.{
  ℕ, String, ◌≡◌, ◌≢◌, ◌↔◌, refl, true, List, [], ◌∷◌, count, flatten, elem, if◌then◌else◌, str_eq,
  arith,
}
use jarvis.Json.{no_member, pos, null}
use jarvis.Result.{ok, err}
use jarvis.Workflow.Node.{
  WorkflowNode, node_ids, deps_of, cycle, unfinished, self_dependency, validate_identifier,
}
use jarvis.Workflow.Layers.{compute_layers}
use jarvis.Workflow.Build.{Workflow, new_workflow, add_nodes, validate_edges}
use jarvis.Workflow.Layers.Edges.{Distinct}
use jarvis.Workflow.Layers.Greedy.{IsGreedy}
use jarvis.Workflow.Layers.Acyclic.{Ranked, compute_layers-ne-unfinished}
use jarvis.Workflow.Build.Accepts.{Accepts, new_workflow-Accepts, new_workflow-layers}
use jarvis.Workflow.Engine.Steps.{Completes}
use jarvis.Workflow.Engine.Settled.{expected}
use jarvis.Workflow.Engine.Outcome.{all_dispatched, run-continue, run-success, run-fail_fast}
use jarvis.Workflow.Engine.Order.{run_order}
use jarvis.Workflow.Engine.{
  Env, Engine, RunResult, fail_fast, continue, run, step, run_layers, abort, execute_node,
  is_succeeded, is_failed,
}

abbrev node : String → List String → WorkflowNode
node name deps = record {
  node_id = name;
  agent_name = "agent";
  prompt = "";
  depends_on = deps;
  timeout = pos 300;
  metadata = no_member;
}

-- The nodes of a diamond, last first.
abbrev diamond : List WorkflowNode
diamond = node "d" ("b" ∷ "c" ∷ []) ∷ node "c" ("a" ∷ []) ∷ node "b" ("a" ∷ []) ∷ node "a" [] ∷ []

abbrev diamond_layers : List (List String)
diamond_layers = ("a" ∷ []) ∷ ("b" ∷ "c" ∷ []) ∷ ("d" ∷ []) ∷ []

abbrev diamond_workflow : Workflow
diamond_workflow = record { workflow_id = "build"; nodes = diamond; layers = diamond_layers }

program : Unit {0}
unfolding new_workflow validate_identifier add_nodes validate_edges compute_layers run step
    run_layers abort execute_node
program = tt

diamond-ok : new_workflow "build" diamond ≡ ok diamond_workflow
unfolding program
diamond-ok = refl

new_workflow-cycle :
    new_workflow "build" (node "a" ("b" ∷ []) ∷ node "b" ("a" ∷ []) ∷ node "c" [] ∷ [])
    ≡ err (cycle ("a" ∷ "b" ∷ []))
unfolding program
new_workflow-cycle = refl

new_workflow_self : new_workflow "build" (node "a" ("a" ∷ []) ∷ []) ≡ err (self_dependency "a")
unfolding program
new_workflow_self = refl

-- The dispatch of "b" raises.
abbrev flaky : Env
flaky = record {
  dispatch = λ n. if str_eq n.node_id "b" then err "RuntimeError: down" else ok null;
  dispatch_times = λ v. (1, 2);
  completed = λ layer. layer;
  run_times = (0, 9);
}

abbrev engine : Engine
engine = record { max_parallelism = 4; failure_policy = fail_fast }

run-flaky : run flaky engine diamond_workflow ≡ err ("b" ∷ [])
unfolding program
run-flaky = refl

abbrev patient : Engine
patient = record { max_parallelism = 4; failure_policy = continue }

flaky-Completes : Completes flaky
flaky-Completes layer v = refl

-- The second thread of a layer ends before the first.
abbrev overtaking : List String → List String
overtaking (a ∷ b ∷ rest) = b ∷ a ∷ rest
overtaking layer = layer

overtaking-Completes : Completes (record flaky { completed = overtaking })
overtaking-Completes [] v = refl
overtaking-Completes (a ∷ []) v = refl
overtaking-Completes (a ∷ b ∷ rest) v = ground arith

new_workflow-layers_example :
    (diamond_workflow.nodes ≡ diamond)
    × IsGreedy diamond [] diamond_layers
    × ((v : String) → count v (flatten diamond_layers) ≡ count v (node_ids diamond))
new_workflow-layers_example = new_workflow-layers "build" diamond diamond_workflow diamond-ok

new_workflow-Accepts_example :
    ((w : Workflow) × (new_workflow "build" diamond ≡ ok w))
    ↔ (Accepts "build" diamond × ((rank : String → ℕ) × Ranked rank diamond))
new_workflow-Accepts_example = new_workflow-Accepts "build" diamond

diamond-Distinct : Distinct diamond
diamond-Distinct = (refl, (refl, (refl, (refl, tt))))

compute_layers-ne-unfinished_example : compute_layers diamond ≢ err unfinished
compute_layers-ne-unfinished_example = compute_layers-ne-unfinished diamond diamond-Distinct

run-continue_example :
    (r : RunResult) × (run flaky patient diamond_workflow ≡ ok r)
    × ((v : String)
        → elem v (node_ids diamond) ≡ true
        → r.results v ≡ expected flaky diamond r.results v)
run-continue_example =
    run-continue flaky patient "build" diamond diamond_workflow flaky-Completes refl diamond-ok

run-success_example :
    ((r : RunResult) × (run flaky engine diamond_workflow ≡ ok r) × (r.success ≡ true))
    ↔ (all_dispatched flaky diamond ≡ true)
run-success_example =
    run-success flaky engine "build" diamond diamond_workflow flaky-Completes diamond-ok

run-fail_fast_example :
    (◌≢◌ {A = List String} ("b" ∷ []) [])
    × ((v : String)
        → elem v ("b" ∷ []) ≡ true
        → (is_failed (execute_node flaky diamond v).status ≡ true)
          × ((d : String)
              → elem d (deps_of diamond v) ≡ true
              → is_succeeded (execute_node flaky diamond d).status ≡ true))
run-fail_fast_example =
    run-fail_fast flaky engine "build" diamond diamond_workflow flaky-Completes diamond-ok
      ("b" ∷ []) run-flaky

run_order_example :
    run (record flaky { completed = overtaking }) engine diamond_workflow
    ≡ run flaky engine diamond_workflow
run_order_example =
    run_order flaky engine diamond_workflow overtaking flaky-Completes overtaking-Completes

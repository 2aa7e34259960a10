-- ===== src/Workflow/Engine/Order.antt =====
-- The order in which the threads of a layer end does not matter.
use mathlib.Core.Path.{fun_ext}
use jarvis.Prelude.{String, ◌≡◌, refl, sym, ◌∙◌, List, [], ◌∷◌}
use jarvis.Workflow.Node.{WorkflowNode}
use jarvis.Workflow.Build.{Workflow}
use jarvis.Workflow.Engine.{
  Env, Engine, Results, FailurePolicy, execute_node, step, run_layers, run,
}
use jarvis.Workflow.Engine.Steps.{Completes, step_lem}

module _ (env : Env) (order : List String → List String) (completes : Completes env)
    (reorders : Completes (record env { completed = order })) (nodes : List WorkflowNode) where
  abbrev reordered : Env
  reordered = record env { completed = order }

  same_step :
      (layer : List String) (results : Results)
      → step reordered nodes layer results ≡ step env nodes layer results
  unfolding execute_node
  same_step layer results = fun_ext λ v.
      step_lem reordered reorders nodes layer results v
      ∙ sym (step_lem env completes nodes layer results v)

  same_layers :
      (policy : FailurePolicy) (layers : List (List String)) (results : Results)
      → run_layers reordered nodes policy layers results
        ≡ run_layers env nodes policy layers results
  unfolding run_layers
  same_layers policy [] results = refl
  same_layers policy (layer ∷ layers) results =
      rw (same_step layer results, same_layers policy layers (step env nodes layer results))

-- A run returns or raises the same, in whatever orders the threads of its layers end.
pub run_order :
    (env : Env) (engine : Engine) (w : Workflow) (order : List String → List String)
    → Completes env
    → Completes (record env { completed = order })
    → run (record env { completed = order }) engine w ≡ run env engine w
unfolding run
run_order env engine w order completes reorders =
    rw (same_layers env order completes reorders w.nodes engine.failure_policy w.layers _)

-- ===== src/Workflow/Layers.antt =====
-- `Workflow._compute_layers` of src/core/brain/workflow_dag.py: Kahn's layering.
pub mod Edges
pub mod Invariant
pub mod Greedy
pub mod Loop
pub mod Acyclic
use jarvis.Prelude.{
  ℕ, zero, suc, ◌+◌, ◌-◌, String, Bool, Option, none, some, List, [], ◌∷◌, ◌++◌, foldl, length,
  if◌then◌else◌, str_eq, ltb, ◌==◌, select, sorted, is_empty,
}
use jarvis.Result.{ok, err}
use jarvis.Workflow.Node.{Checked, WorkflowNode, node_ids, deps_of, unfinished, cycle}

-- A dictionary over the ids of the nodes, as a function; `d[k] = v`.
abbrev update {ℓ} : {A : Type ℓ} → (String → A) → String → A → String → A
update d k v j = if str_eq k j then v else d j

-- `dependents[dependency].append(node.node_id)`
add_dependent : String → (String → List String) → String → String → List String
add_dependent node_id dependents dependency =
    update dependents dependency (dependents dependency ++ node_id ∷ [])

add_node : (String → List String) → WorkflowNode → String → List String
add_node dependents node = foldl (add_dependent node.node_id) dependents node.depends_on

pub dependents_of : List WorkflowNode → String → List String
unfolding add_node add_dependent
dependents_of = foldl add_node (λ _. [])

-- The variables of the loop body: `remaining` and `next_layer`.
abbrev pub Work : Type 0
Work = (String → ℕ) × List String

-- `remaining` never passes below zero (Layers.Invariant), so the subtraction is Python's.
process_edge : Work → String → Work
process_edge (remaining, next_layer) dependent =
    let left = update remaining dependent (remaining dependent - 1) in
    (left, if left dependent == 0 then next_layer ++ dependent ∷ [] else next_layer)

process_node : (String → List String) → Work → String → Work
process_node dependents work node_id = foldl process_edge work (dependents node_id)

pub process_layer : (String → List String) → (String → ℕ) → List String → Work
unfolding process_edge process_node
process_layer dependents remaining layer = foldl (process_node dependents) (remaining, []) layer

pub record Kahn : Type 0 where
  pub remaining : String → ℕ
  pub current_layer : List String
  pub layers : List (List String)
  pub visited : ℕ

-- One round of the `while` loop.
pub round : (String → List String) → Kahn → Kahn
unfolding process_layer
round dependents k =
    let (left, next_layer) = process_layer dependents k.remaining k.current_layer in
    record {
      remaining = left;
      current_layer = sorted next_layer;
      layers = k.layers ++ k.current_layer ∷ [];
      visited = k.visited + length k.current_layer;
    }

-- The loop ends when the current layer is empty; `none` means that the fuel ran out.
pub rounds : ℕ → (String → List String) → Kahn → Option Kahn
rounds zero dependents k = if is_empty k.current_layer then some k else none
rounds (suc fuel) dependents k =
    let rest = rounds fuel dependents (round dependents k) in
    if is_empty k.current_layer then some k else rest

indegree : List WorkflowNode → String → ℕ
unfolding deps_of
indegree nodes v = length (deps_of nodes v)

pub start : List WorkflowNode → Kahn
unfolding indegree
start nodes = record {
  remaining = indegree nodes;
  current_layer = sorted (select (λ v. indegree nodes v == 0) (node_ids nodes));
  layers = [];
  visited = 0;
}

pub finish : List WorkflowNode → Option Kahn → Checked (List (List String))
finish nodes none = err unfinished
finish nodes (some k) =
    if k.visited == length nodes
    then ok k.layers
    else err (cycle (sorted (select (λ v. ltb 0 (k.remaining v)) (node_ids nodes))))

unfoldable pub compute_layers : List WorkflowNode → Checked (List (List String))
unfolding dependents_of rounds round start finish sorted
compute_layers nodes =
    finish nodes (rounds (suc (length nodes)) (dependents_of nodes) (start nodes))

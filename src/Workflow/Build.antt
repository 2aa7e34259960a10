-- ===== src/Workflow/Build.antt =====
-- `Workflow.__init__` and `Workflow._validate_edges` of src/core/brain/workflow_dag.py.
pub mod Valid
pub mod Accepts
use jarvis.Prelude.{
  ℕ, ◌+◌, String, not, List, [], ◌∷◌, ◌++◌, length, if◌then◌else◌, str_eq, ltb, elem,
}
use jarvis.Json.{str}
use jarvis.Result.{ok, err, ◌>>=◌, ◌>>◌}
use jarvis.Workflow.Node.{
  Checked, WorkflowNode, node_ids, validate_identifier, workflow_max_nodes, workflow_max_edges,
  too_many_nodes, too_many_edges, duplicate_node, self_dependency, unknown_dependency,
}
use jarvis.Workflow.Layers.{compute_layers}

pub record Workflow : Type 0 where
  pub workflow_id : String
  pub nodes : List WorkflowNode
  pub layers : List (List String)

-- The loop that fills `self._nodes`: a dictionary keeps its keys in the order of insertion.
unfoldable pub add_nodes : List WorkflowNode → List WorkflowNode → Checked (List WorkflowNode)
add_nodes table [] = ok table
add_nodes table (node ∷ nodes) =
    if elem node.node_id (node_ids table)
    then err (duplicate_node node.node_id)
    else add_nodes (table ++ node ∷ []) nodes

-- The inner loop of `_validate_edges`: the new value of `edge_count`.
check_edges : List String → String → ℕ → List String → Checked ℕ
check_edges ids node_id edge_count [] = ok edge_count
check_edges ids node_id edge_count (dependency ∷ rest) =
    if str_eq dependency node_id
    then err (self_dependency node_id)
    else if not (elem dependency ids)
    then err (unknown_dependency node_id dependency)
    else check_edges ids node_id (edge_count + 1) rest

pub check_nodes : List String → ℕ → List WorkflowNode → Checked ℕ
unfolding check_edges
check_nodes ids edge_count [] = ok edge_count
check_nodes ids edge_count (node ∷ nodes) = do
  counted ← check_edges ids node.node_id edge_count node.depends_on
  check_nodes ids counted nodes

unfoldable pub validate_edges : List WorkflowNode → Checked ℕ
unfolding check_nodes
validate_edges nodes = do
  edge_count ← check_nodes (node_ids nodes) 0 nodes
  if ltb workflow_max_edges edge_count then err too_many_edges else ok edge_count

unfoldable pub new_workflow : String → List WorkflowNode → Checked Workflow
new_workflow workflow_id nodes = do
  identifier ← validate_identifier (str workflow_id)
  table ← if ltb workflow_max_nodes (length nodes) then err too_many_nodes else add_nodes [] nodes
  validate_edges table
  layers ← compute_layers table
  ok (record { workflow_id = identifier; nodes = table; layers = layers })

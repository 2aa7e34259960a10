-- ===== src/Workflow/Node.antt =====
-- The constants, the errors and the nodes of src/core/brain/workflow_dag.py.
use jarvis.Prelude.{ℕ, String, List, [], ◌∷◌, map, if◌then◌else◌, str_eq, strip, text_len, ltb}
use jarvis.Json.{Value, ℤ, Members, str}
use jarvis.Result.{Result, ok, err}

abbrev pub workflow_max_nodes : ℕ
workflow_max_nodes = 512

abbrev pub workflow_max_edges : ℕ
workflow_max_edges = 4096

-- `WorkflowValidationError`: one constructor for each message. `unfinished` is the model's own,
-- for a layering that has used up its fuel.
pub data ValidationError : Type 0 where
  blank_identifier long_identifier too_many_nodes too_many_edges unfinished : ValidationError
  duplicate_node self_dependency : String → ValidationError
  unknown_dependency : String → String → ValidationError
  cycle : List String → ValidationError

abbrev pub Checked {ℓ} : Type ℓ → Type ℓ
Checked A = Result ValidationError A

pub record WorkflowNode : Type 0 where
  pub node_id : String
  pub agent_name : String
  pub prompt : String
  pub depends_on : List String
  pub timeout : ℤ
  pub metadata : Members

abbrev pub node_ids : List WorkflowNode → List String
node_ids nodes = map (λ n. n.node_id) nodes

-- self._nodes[node_id].depends_on, and no dependency for an id that is no node.
unfoldable pub deps_of : List WorkflowNode → String → List String
deps_of [] v = []
deps_of (n ∷ nodes) v = if str_eq n.node_id v then n.depends_on else deps_of nodes v

unfoldable pub validate_identifier : Value → Checked String
unfolding strip
validate_identifier (str s) =
    if str_eq (strip s) ""
    then err blank_identifier
    else if ltb 128 (text_len s)
    then err long_identifier
    else ok s
validate_identifier _ = err blank_identifier

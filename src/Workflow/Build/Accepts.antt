-- ===== src/Workflow/Build/Accepts.antt =====
-- `Workflow.__init__` accepts exactly the acyclic graphs within its bounds.
use jarvis.Prelude.{
  count→elem, elem→count, All, all-elem, all-intro, ℕ, ◌≤◌, String, ◌≡◌, ◌↔◌, refl, sym, Bool, true,
  false, ◌⊎◌, List, [], ◌∷◌, length, str_eq, arith, eq_iff, elem, all, count, flatten, strip,
  text_len, inl, inr,
}
use mathlib.Core.Path.{subst}
use jarvis.Json.{str}
use jarvis.Result.{Result, ok, err}
use jarvis.Workflow.Node.{WorkflowNode, node_ids, deps_of, validate_identifier}
use jarvis.Workflow.Layers.{compute_layers}
use jarvis.Workflow.Layers.Edges.{Distinct}
use jarvis.Workflow.Layers.Greedy.{IsGreedy}
use jarvis.Workflow.Layers.Acyclic.{Closed, Ranked, compute_layers-IsGreedy, compute_layers-Ranked}
use jarvis.Workflow.Build.{Workflow, add_nodes, check_nodes, validate_edges, new_workflow}
use jarvis.Workflow.Build.Valid.{
  good, good_node, edge_total, add_nodes-eq-ok, add_nodes-ok, check_nodes-eq-ok, check_nodes-ok,
}

-- Every dependency of every node is the id of a node.
abbrev pub known_edges : List String → List WorkflowNode → Bool
known_edges ids nodes = all (λ n. all (λ d. elem d ids) n.depends_on) nodes

-- The bounds of `Workflow.__init__`, read without running it.
pub record Accepts (workflow_id : String) (nodes : List WorkflowNode) : Type 0 where
  pub named : str_eq (strip workflow_id) "" ≡ false
  pub short : text_len workflow_id ≤ 128
  pub few_nodes : length nodes ≤ 512
  pub distinct : Distinct nodes
  pub known : known_edges (node_ids nodes) nodes ≡ true
  pub few_edges : edge_total nodes ≤ 4096

validate_identifier-eq-ok :
    (s t : String)
    → validate_identifier (str s) ≡ ok t
    → (t ≡ s) × (str_eq (strip s) "" ≡ false) × (text_len s ≤ 128)
unfolding validate_identifier
validate_identifier-eq-ok s t e = ground arith

validate_identifier-ok :
    (s : String)
    → str_eq (strip s) "" ≡ false
    → text_len s ≤ 128
    → validate_identifier (str s) ≡ ok s
unfolding validate_identifier
validate_identifier-ok s named short = ground arith

abbrev is_ok {ℓ κ} : {E : Type ℓ} {A : Type κ} → Result E A → Bool
is_ok (ok _) = true
is_ok (err _) = false

Result-cases {ℓ κ} :
    {E : Type ℓ} {A : Type κ} (r : Result E A) → ((a : A) × (r ≡ ok a)) ⊎ ((e : E) × (r ≡ err e))
Result-cases (ok a) = inl (a, refl)
Result-cases (err e) = inr (e, refl)

validate_edges-is_ok :
    (nodes : List WorkflowNode)
    → is_ok (validate_edges nodes) ≡ true
    → (all (good_node (node_ids nodes)) nodes ≡ true) × (edge_total nodes ≤ 4096)
unfolding validate_edges
validate_edges-is_ok nodes h = elim (Result-cases (check_nodes (node_ids nodes) 0 nodes)) [
  | inl (c, e) ↦
      let (good, total) = check_nodes-eq-ok (node_ids nodes) 0 nodes c e in (good, ground arith)
  | inr (c, e) ↦ absurd (ground arith)
]

validate_edges-ok :
    (nodes : List WorkflowNode)
    → all (good_node (node_ids nodes)) nodes ≡ true
    → edge_total nodes ≤ 4096
    → validate_edges nodes ≡ ok (edge_total nodes)
unfolding validate_edges
validate_edges-ok nodes h few = ground (arith, check_nodes-ok (node_ids nodes) 0 nodes h)

-- The parts of a successful `__init__`.
record Built (workflow_id : String) (nodes : List WorkflowNode) (w : Workflow) : Type 0 where
  named : validate_identifier (str workflow_id) ≡ ok w.workflow_id
  few_nodes : length nodes ≤ 512
  table : add_nodes [] nodes ≡ ok w.nodes
  edges : is_ok (validate_edges w.nodes) ≡ true
  layers : compute_layers w.nodes ≡ ok w.layers

new_workflow-Built :
    (workflow_id : String) (nodes : List WorkflowNode) (w : Workflow)
    → new_workflow workflow_id nodes ≡ ok w
    → Built workflow_id nodes w
unfolding new_workflow
new_workflow-Built workflow_id nodes w e = record {
  named = ground arith;
  few_nodes = ground arith;
  table = ground arith;
  edges = ground arith;
  layers = ground arith;
}

good→known :
    (ids : List String) (nodes : List WorkflowNode)
    → all (good_node ids) nodes ≡ true
    → known_edges ids nodes ≡ true
good→known ids [] h = refl
good→known ids (n ∷ nodes) h =
    let first : all (good ids n.node_id) n.depends_on ≡ true = ground arith in
    ground (
      arith,
      good→known ids nodes,
      all-intro (λ d. elem d ids) n.depends_on
          (λ d m. ground (arith, all-elem (good ids n.node_id) n.depends_on d first m)),
    )

known→Closed :
    (ids : List String) (nodes : List WorkflowNode) (v d : String)
    → known_edges ids nodes ≡ true
    → elem d (deps_of nodes v) ≡ true
    → elem d ids ≡ true
unfolding deps_of
known→Closed ids [] v d h m = cc
known→Closed ids (n ∷ nodes) v d h m =
    ground (arith, all-elem (λ u. elem u ids) n.depends_on d, known→Closed ids nodes v d)

-- `self._nodes` finds each node under its id.
abbrev Found : List WorkflowNode → WorkflowNode → Type 0
Found nodes m = (deps_of nodes m.node_id ≡ m.depends_on) × (elem m.node_id (node_ids nodes) ≡ true)

All-map :
    {P Q : WorkflowNode → Type 0} (nodes : List WorkflowNode)
    → ((m : WorkflowNode) → P m → Q m)
    → All P nodes
    → All Q nodes
All-map [] f h = tt
All-map (n ∷ nodes) f h = (f n h.0, All-map nodes f h.1)

Distinct→Found : (nodes : List WorkflowNode) → Distinct nodes → All (Found nodes) nodes
unfolding deps_of
Distinct→Found [] h = tt
Distinct→Found (n ∷ nodes) h = (
  (ground (arith, eq_iff n.node_id n.node_id), ground (arith, eq_iff n.node_id n.node_id)),
  All-map nodes
      (λ m f. (ground (arith, f.0, f.1, h.0, eq_iff n.node_id m.node_id), ground (arith, f.1)))
      (Distinct→Found nodes h.1),
)

module _ (nodes : List WorkflowNode) (rank : String → ℕ) (ranked : Ranked rank nodes) where
  ranked-good :
      (ids : List String) (ns : List WorkflowNode)
      → All (Found nodes) ns
      → known_edges ids ns ≡ true
      → all (good_node ids) ns ≡ true
  ranked-good ids [] f h = refl
  ranked-good ids (n ∷ ns) f h =
      let first : all (λ d. elem d ids) n.depends_on ≡ true = ground arith in
      ground (
        arith,
        ranked-good ids ns f.1,
        all-intro (good ids n.node_id) n.depends_on (λ d m. ground (
          arith,
          eq_iff d n.node_id,
          ranked n.node_id d (rw f.0.0 m),
          all-elem (λ u. elem u ids) n.depends_on d first m,
        )),
      )

accepted :
    (workflow_id : String) (nodes : List WorkflowNode) (w : Workflow)
    → new_workflow workflow_id nodes ≡ ok w
    → Accepts workflow_id nodes × ((rank : String → ℕ) × Ranked rank nodes)
accepted workflow_id nodes w e =
    let b = new_workflow-Built workflow_id nodes w e in
    let (same, distinct) = add_nodes-eq-ok [] nodes w.nodes tt b.table in
    let d : Distinct nodes = rw same at distinct in
    let (good_nodes, few_edges) = validate_edges-is_ok nodes (rw same at b.edges) in
    let known = good→known (node_ids nodes) nodes good_nodes in
    let (_, named, short) = validate_identifier-eq-ok workflow_id w.workflow_id b.named in
    (
      record {
        named = named;
        short = short;
        few_nodes = b.few_nodes;
        distinct = d;
        known = known;
        few_edges = few_edges;
      },
      (compute_layers-Ranked nodes d (λ v u. known→Closed (node_ids nodes) nodes v u known)).0
          (w.layers, rw same at b.layers),
    )

built :
    (workflow_id : String) (nodes : List WorkflowNode)
    → Accepts workflow_id nodes
    → (rank : String → ℕ) → Ranked rank nodes
    → (w : Workflow) × (new_workflow workflow_id nodes ≡ ok w)
unfolding new_workflow
built workflow_id nodes a rank ranked =
    let closed : Closed nodes = λ v u. known→Closed (node_ids nodes) nodes v u a.known in
    let (layers, layered) = (compute_layers-Ranked nodes a.distinct closed).1 (rank, ranked) in
    let good_nodes =
      ranked-good nodes rank ranked (node_ids nodes) nodes (Distinct→Found nodes a.distinct)
        a.known in
    (
      record { workflow_id = workflow_id; nodes = nodes; layers = layers },
      ground (
        arith,
        a.few_nodes,
        validate_identifier-ok workflow_id a.named a.short,
        add_nodes-ok [] nodes a.distinct,
        validate_edges-ok nodes good_nodes a.few_edges,
        layered,
      ),
    )

-- A graph is accepted exactly when its name is a text of at most 128 characters that is not blank,
-- it has at most 512 nodes and 4096 edges, its ids are distinct, all dependencies are nodes, and
-- the dependencies can be ranked (no cycle).
pub new_workflow-Accepts :
    (workflow_id : String) (nodes : List WorkflowNode)
    → ((w : Workflow) × (new_workflow workflow_id nodes ≡ ok w))
      ↔ (Accepts workflow_id nodes × ((rank : String → ℕ) × Ranked rank nodes))
new_workflow-Accepts workflow_id nodes = (
  λ (w, e). accepted workflow_id nodes w e,
  λ (a, (rank, ranked)). built workflow_id nodes a rank ranked,
)

-- An accepted workflow has the nodes that it was given, each in exactly one layer, and each layer
-- holds exactly the nodes that are in no earlier layer and whose dependencies all are.
pub new_workflow-layers :
    (workflow_id : String) (nodes : List WorkflowNode) (w : Workflow)
    → new_workflow workflow_id nodes ≡ ok w
    → (w.nodes ≡ nodes)
      × IsGreedy nodes [] w.layers
      × ((v : String) → count v (flatten w.layers) ≡ count v (node_ids nodes))
new_workflow-layers workflow_id nodes w e =
    let b = new_workflow-Built workflow_id nodes w e in
    let (same, distinct) = add_nodes-eq-ok [] nodes w.nodes tt b.table in
    let (greedy, once) =
      compute_layers-IsGreedy nodes (rw same at distinct) w.layers (rw same at b.layers) in
    (same, greedy, once)

-- What the engine relies on of the graph that it runs.
pub record Layered (w : Workflow) : Type 0 where
  pub greedy : IsGreedy w.nodes [] w.layers
  pub placed : (v : String) → elem v (node_ids w.nodes) ≡ true → elem v (flatten w.layers) ≡ true
  pub closed : Closed w.nodes
  pub rank : String → ℕ
  pub ranked : Ranked rank w.nodes

pub new_workflow-Layered :
    (workflow_id : String) (nodes : List WorkflowNode) (w : Workflow)
    → new_workflow workflow_id nodes ≡ ok w
    → Layered w
new_workflow-Layered workflow_id nodes w e =
    let (same, greedy, once) = new_workflow-layers workflow_id nodes w e in
    let (a, (rank, ranked)) = accepted workflow_id nodes w e in
    record {
      greedy = subst (λ ns. IsGreedy ns [] w.layers) (sym same) greedy;
      placed = λ v m.
          count→elem v (flatten w.layers) (rw once (elem→count v (node_ids nodes) (rw same at m)));
      closed = λ v u. known→Closed (node_ids w.nodes) w.nodes v u (rw same a.known);
      rank = rank;
      ranked = subst (Ranked rank) (sym same) ranked;
    }

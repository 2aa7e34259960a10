-- ===== src/Workflow/Build/Valid.antt =====
-- Which graphs `Workflow.__init__` accepts, and what it builds of them.
use mathlib.Core.List.{map-append, append_assoc, append-nil}
use jarvis.Prelude.{
  ℕ, ◌+◌, String, ◌≡◌, refl, sym, ap, ◌∙◌, Bool, true, false, not, ◌&&◌, List, [], ◌∷◌, ◌++◌,
  length, Bool-cases, inl, inr, str_eq, arith, eq_iff, elem, elem-append, all, sum_of,
}
use jarvis.Result.{ok, ok_parts}
use jarvis.Workflow.Node.{WorkflowNode, node_ids}
use jarvis.Workflow.Layers.Edges.{Distinct}
use jarvis.Workflow.Build.{add_nodes, check_edges, check_nodes}

Distinct-snoc :
    (table : List WorkflowNode) (node : WorkflowNode)
    → Distinct table
    → elem node.node_id (node_ids table) ≡ false
    → Distinct (table ++ node ∷ [])
Distinct-snoc [] node h absent = (refl, tt)
Distinct-snoc (n ∷ table) node h absent = (
  rw map-append (
      rw elem-append
        (ground (arith, h.0, eq_iff n.node_id node.node_id, eq_iff node.node_id n.node_id))),
  Distinct-snoc table node h.1 (ground arith),
)

node_ids-append :
    (table : List WorkflowNode) (n : WorkflowNode) (nodes : List WorkflowNode)
    → node_ids (table ++ n ∷ nodes) ≡ node_ids table ++ n.node_id ∷ node_ids nodes
node_ids-append table n nodes = map-append (λ (m : WorkflowNode). m.node_id) table (n ∷ nodes)

Distinct-middle :
    (table : List WorkflowNode) (n : WorkflowNode) (nodes : List WorkflowNode)
    → Distinct (table ++ n ∷ nodes)
    → elem n.node_id (node_ids table) ≡ false
Distinct-middle [] n nodes h = refl
Distinct-middle (m ∷ table) n nodes h = ground (
  arith,
  eq_iff m.node_id n.node_id,
  eq_iff n.node_id m.node_id,
  ap (elem m.node_id) (node_ids-append table n nodes),
  elem-append m.node_id (node_ids table) (n.node_id ∷ node_ids nodes),
  Distinct-middle table n nodes h.1,
  h.0,
)

pub add_nodes-eq-ok :
    (table nodes t : List WorkflowNode)
    → Distinct table
    → add_nodes table nodes ≡ ok t
    → (t ≡ table ++ nodes) × Distinct t
unfolding add_nodes
add_nodes-eq-ok table [] t h e =
    let same : t ≡ table = cc in (same ∙ sym (append-nil table), rw same h)
add_nodes-eq-ok table (n ∷ nodes) t h e = elim (Bool-cases (elem n.node_id (node_ids table))) [
  | inl known ↦ absurd (ground arith)
  | inr new ↦
      let (same, distinct) =
        add_nodes-eq-ok (table ++ n ∷ []) nodes t (Distinct-snoc table n h new) (rw new at e) in
      (same ∙ append_assoc table (n ∷ []) nodes, distinct)
]

pub add_nodes-ok :
    (table nodes : List WorkflowNode)
    → Distinct (table ++ nodes)
    → add_nodes table nodes ≡ ok (table ++ nodes)
unfolding add_nodes
add_nodes-ok table [] h = rw append-nil
add_nodes-ok table (n ∷ nodes) h = rw (Distinct-middle table n nodes h) (
    add_nodes-ok (table ++ n ∷ []) nodes (rw append_assoc h)
    ∙ ap ok (append_assoc table (n ∷ []) nodes))

-- Of the node `v`, the dependency `d` is neither `v` nor unknown.
abbrev pub good : List String → String → String → Bool
good ids v d = not (str_eq d v) && elem d ids

check_edges-eq-ok :
    (ids : List String) (v : String) (c : ℕ) (ds : List String) (c' : ℕ)
    → check_edges ids v c ds ≡ ok c'
    → (all (good ids v) ds ≡ true) × (c' ≡ c + length ds)
unfolding check_edges
check_edges-eq-ok ids v c [] c' e = ground arith
check_edges-eq-ok ids v c (d ∷ ds) c' e = ground (arith, check_edges-eq-ok ids v (c + 1) ds c')

check_edges-ok :
    (ids : List String) (v : String) (c : ℕ) (ds : List String)
    → all (good ids v) ds ≡ true
    → check_edges ids v c ds ≡ ok (c + length ds)
unfolding check_edges
check_edges-ok ids v c [] e = ground arith
check_edges-ok ids v c (d ∷ ds) e = ground (arith, check_edges-ok ids v (c + 1) ds)

abbrev pub good_node : List String → WorkflowNode → Bool
good_node ids n = all (good ids n.node_id) n.depends_on

abbrev pub edge_total : List WorkflowNode → ℕ
edge_total nodes = sum_of (λ n. length n.depends_on) nodes

pub check_nodes-eq-ok :
    (ids : List String) (c : ℕ) (nodes : List WorkflowNode) (c' : ℕ)
    → check_nodes ids c nodes ≡ ok c'
    → (all (good_node ids) nodes ≡ true) × (c' ≡ c + edge_total nodes)
unfolding check_nodes
check_nodes-eq-ok ids c [] c' e = ground arith
check_nodes-eq-ok ids c (n ∷ nodes) c' e =
    let (c₁, first, rest) = ok_parts (check_edges ids n.node_id c n.depends_on) _ e in
    ground (
      arith,
      check_edges-eq-ok ids n.node_id c n.depends_on c₁ first,
      check_nodes-eq-ok ids c₁ nodes c' rest,
    )

pub check_nodes-ok :
    (ids : List String) (c : ℕ) (nodes : List WorkflowNode)
    → all (good_node ids) nodes ≡ true
    → check_nodes ids c nodes ≡ ok (c + edge_total nodes)
unfolding check_nodes
check_nodes-ok ids c [] h = ground arith
check_nodes-ok ids c (n ∷ nodes) h = ground (
  arith,
  check_edges-ok ids n.node_id c n.depends_on,
  check_nodes-ok ids (c + length n.depends_on) nodes,
)

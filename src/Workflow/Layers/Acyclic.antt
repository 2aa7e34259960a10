-- ===== src/Workflow/Layers/Acyclic.antt =====
-- What `_compute_layers` returns, and that it raises on a cycle only.
use jarvis.Prelude.{
  elem-append, count_le→length_le, ℕ, zero, suc, ◌≤◌, ◌<◌, String, ◌≡◌, ◌≢◌, ◌↔◌, ◌⊎◌, inl, inr,
  sym, ap, ◌∙◌, true, List, [], ◌∷◌, ◌++◌, length, if◌then◌else◌, ◌==◌, arith, eq_iff, elem, count,
  count-append, count→elem, elem→count, count_eq_of_length, length-map, flatten, some, all, ◌&&◌,
}
use native.Mathlib.Decide.{dec_lt}
use jarvis.Result.{ok, err}
use jarvis.Workflow.Node.{WorkflowNode, node_ids, deps_of, unfinished}
use jarvis.Workflow.Layers.{Kahn, start, finish, compute_layers}
use jarvis.Workflow.Layers.Edges.{hits, Distinct, deps_of-unknown}
use jarvis.Workflow.Layers.Invariant.{Inv, Distinct→count}
use jarvis.Workflow.Layers.Greedy.{IsGreedy}
use jarvis.Workflow.Layers.Loop.{Ended, start-Ended}

-- Every dependency is a node.
abbrev pub Closed : List WorkflowNode → Type 0
Closed nodes = (v d : String) → elem d (deps_of nodes v) ≡ true → elem d (node_ids nodes) ≡ true

-- `rank` puts every dependency below its node, so the graph has no cycle.
abbrev pub Ranked : (String → ℕ) → List WorkflowNode → Type 0
Ranked rank nodes = (v d : String) → elem d (deps_of nodes v) ≡ true → rank d < rank v

missed :
    (placed ds : List String)
    → hits placed ds < length ds
    → (d : String) × (elem d ds ≡ true) × (count d placed ≡ 0)
missed placed [] h = absurd (omega arith)
missed placed (d ∷ ds) h = elim (dec_lt 0 (count d placed)) [
  | yes p ↦ let (e, m, z) = missed placed ds (omega arith) in (e, rw m (ground arith), z)
  | no p ↦ (d, ground (arith, eq_iff d d), omega arith)
]

module _ (nodes : List WorkflowNode) (distinct : Distinct nodes) (k : Kahn) (inv : Inv nodes k)
    (empty : k.current_layer ≡ []) where
  placed-last :
      (v : String)
      → count v (flatten k.layers)
        ≡ (if elem v (node_ids nodes) && k.remaining v == 0 then 1 else 0)
  placed-last v =
      ground
        (arith, inv.placed v, count-append v (flatten k.layers) k.current_layer, ap (count v) empty)

  count-placed-le : (v : String) → count v (flatten k.layers) ≤ count v (node_ids nodes)
  count-placed-le v = ground (arith, placed-last v, Distinct→count nodes v distinct)

  all_placed :
      k.visited ≡ length nodes
      → (v : String) → count v (flatten k.layers) ≡ count v (node_ids nodes)
  all_placed h =
      count_eq_of_length (flatten k.layers) (node_ids nodes) count-placed-le
        (omega (arith, inv.seen, length-map (λ (n : WorkflowNode). n.node_id) nodes))

  module _ (closed : Closed nodes) (rank : String → ℕ) (ranked : Ranked rank nodes) where
    nothing_waits :
        (bound : ℕ) (v : String)
        → rank v < bound
        → elem v (node_ids nodes) ≡ true
        → k.remaining v ≡ 0
    nothing_waits zero v h m = absurd (omega arith)
    nothing_waits (suc bound) v h m = elim (dec_lt 0 (k.remaining v)) [
      | yes p ↦
          let (d, dep, absent) =
            missed (flatten k.layers) (deps_of nodes v) (omega (arith, inv.split v)) in
          let below = nothing_waits bound d (omega (arith, ranked v d dep)) (closed v d dep) in
          absurd (ground (arith, placed-last d, closed v d dep, below, absent))
      | no p ↦ omega arith
    ]

    visited-all : k.visited ≡ length nodes
    visited-all = omega (
      arith,
      inv.seen,
      length-map (λ (n : WorkflowNode). n.node_id) nodes,
      count_le→length_le (flatten k.layers) (node_ids nodes) count-placed-le,
      count_le→length_le (node_ids nodes) (flatten k.layers) (λ v.
          ground (
            arith,
            placed-last v,
            Distinct→count nodes v distinct,
            nothing_waits (suc (rank v)) v,
          )),
    )

finish-eq-ok :
    (nodes : List WorkflowNode) (k : Kahn) (layers : List (List String))
    → finish nodes (some k) ≡ ok layers
    → (k.layers ≡ layers) × (k.visited ≡ length nodes)
unfolding finish
finish-eq-ok nodes k layers e = ground arith

finish_complete :
    (nodes : List WorkflowNode) (k : Kahn)
    → k.visited ≡ length nodes
    → finish nodes (some k) ≡ ok k.layers
unfolding finish
finish_complete nodes k e = ground arith

module _ (nodes : List WorkflowNode) (distinct : Distinct nodes) where
  abbrev last_state : Ended nodes (suc (length nodes)) (start nodes)
  last_state = start-Ended nodes distinct

  compute_layers-finish : compute_layers nodes ≡ finish nodes (some last_state.last)
  unfolding compute_layers
  compute_layers-finish = ap (finish nodes) last_state.reached

  -- The layering of a graph with distinct ids always ends: the fuel, one more than the number of
  -- nodes, is enough.
  pub compute_layers-ne-unfinished : compute_layers nodes ≢ err unfinished
  compute_layers-ne-unfinished e = unfold finish in ground (arith, compute_layers-finish, e)

  -- Layers that are returned hold every node exactly once, and each of them holds exactly the
  -- nodes that are not in an earlier layer and whose dependencies all are.
  pub compute_layers-IsGreedy :
      (layers : List (List String))
      → compute_layers nodes ≡ ok layers
      → IsGreedy nodes [] layers
        × ((v : String) → count v (flatten layers) ≡ count v (node_ids nodes))
  compute_layers-IsGreedy layers e =
      let k = last_state.last in
      let (same, complete) = finish-eq-ok nodes k layers (sym compute_layers-finish ∙ e) in
      rw (← same)
        (last_state.greedy, all_placed nodes distinct k last_state.inv last_state.empty complete)

-- The index of the layer that holds `v`.
layer_of : List (List String) → String → ℕ
layer_of [] v = 0
layer_of (layer ∷ layers) v = if elem v layer then 0 else suc (layer_of layers v)

ready-elem :
    (placed ds : List String) (d : String)
    → all (λ u. elem u placed) ds ≡ true
    → elem d ds ≡ true
    → elem d placed ≡ true
ready-elem placed [] d h m = cc
ready-elem placed (u ∷ ds) d h m = ground (arith, eq_iff u d, ready-elem placed ds d)

layer_of-lt :
    (nodes : List WorkflowNode) (placed : List String) (layers : List (List String)) (v d : String)
    → IsGreedy nodes placed layers
    → elem v (flatten layers) ≡ true
    → elem d (deps_of nodes v) ≡ true
    → (elem d placed ≡ true) ⊎ (layer_of layers d < layer_of layers v)
unfolding layer_of flatten
layer_of-lt nodes placed [] v d g m dep = cc
layer_of-lt nodes placed (layer ∷ layers) v d g m dep = ground (
  arith,
  g.0 v,
  ready-elem placed (deps_of nodes v) d,
  elem-append v layer (flatten layers),
  elem-append d placed layer,
  layer_of-lt nodes (placed ++ layer) layers v d g.1,
)

deps_of-node :
    (nodes : List WorkflowNode) (v d : String)
    → elem d (deps_of nodes v) ≡ true
    → elem v (node_ids nodes) ≡ true
deps_of-node nodes v d m = ground (arith, deps_of-unknown nodes v)

layer_of-Ranked :
    (nodes : List WorkflowNode)
    → Distinct nodes
    → (layers : List (List String)) → compute_layers nodes ≡ ok layers
    → Ranked (layer_of layers) nodes
layer_of-Ranked nodes distinct layers e v d dep =
    let (greedy, same) = compute_layers-IsGreedy nodes distinct layers e in
    let node = elem→count v (node_ids nodes) (deps_of-node nodes v d dep) in
    let placed = count→elem v (flatten layers) (rw same node) in
    elim (layer_of-lt nodes [] layers v d greedy placed dep) [ inl p ↦ cc | inr h ↦ h ]

-- Of a graph with distinct ids whose dependencies are all nodes, layers are returned exactly when
-- the dependencies can be ranked, that is when the graph has no cycle.
pub compute_layers-Ranked :
    (nodes : List WorkflowNode)
    → Distinct nodes
    → Closed nodes
    → ((layers : List (List String)) × (compute_layers nodes ≡ ok layers))
      ↔ ((rank : String → ℕ) × Ranked rank nodes)
compute_layers-Ranked nodes distinct closed = (
  λ (layers, e). (layer_of layers, layer_of-Ranked nodes distinct layers e),
  λ (rank, ranked).
      let ended = start-Ended nodes distinct in
      let complete =
        visited-all nodes distinct ended.last ended.inv ended.empty closed rank ranked in
      (
        ended.last.layers,
        compute_layers-finish nodes distinct ∙ finish_complete nodes ended.last complete,
      ),
)

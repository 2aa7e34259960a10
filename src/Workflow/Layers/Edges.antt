-- ===== src/Workflow/Layers/Edges.antt =====
-- The dictionary `dependents`, and what one round does to `remaining` and `next_layer`, in
-- numbers: how often each text stands in a list.
use mathlib.Core.List.{foldl-append}
use jarvis.Prelude.{
  ℕ, ◌+◌, ◌-◌, ◌≤◌, String, ◌≡◌, refl, sym, ◌∙◌, ap, false, ◌&&◌, List, [], ◌∷◌, ◌++◌, foldl,
  if◌then◌else◌, str_eq, ltb, leb, arith, eq_iff, elem, count, count-append, sum_of,
}
use jarvis.Workflow.Node.{WorkflowNode, node_ids, deps_of}
use jarvis.Workflow.Layers.{
  add_dependent, add_node, dependents_of, Work, process_edge, process_node, process_layer,
}

-- How many of the dependencies `ds` stand in `placed`.
abbrev pub hits : List String → List String → ℕ
hits placed ds = sum_of (λ d. count d placed) ds

abbrev edges : (String → List String) → List String → List String
edges dependents [] = []
edges dependents (u ∷ us) = dependents u ++ edges dependents us

-- 1 if `c` decrements take `r` to zero.
abbrev pub falls : ℕ → ℕ → ℕ
falls r c = if ltb 0 r && leb r c then 1 else 0

process_edges-remaining :
    (v : String) (ds : List String) (remaining : String → ℕ) (next : List String)
    → (foldl process_edge (remaining, next) ds).0 v ≡ remaining v - count v ds
unfolding process_edge
process_edges-remaining v [] remaining next = omega arith
process_edges-remaining v (d ∷ ds) remaining next = ground (
  arith,
  eq_iff d v,
  process_edges-remaining v ds (process_edge (remaining, next) d).0
      (process_edge (remaining, next) d).1,
)

process_edges-next :
    (v : String) (ds : List String) (remaining : String → ℕ) (next : List String)
    → count v ds ≤ remaining v
    → count v (foldl process_edge (remaining, next) ds).1
      ≡ count v next + falls (remaining v) (count v ds)
unfolding process_edge
process_edges-next v [] remaining next h = ground arith
process_edges-next v (d ∷ ds) remaining next h = ground (
  arith,
  eq_iff d v,
  count-append v next (d ∷ []),
  process_edges-next v ds (process_edge (remaining, next) d).0 (process_edge (remaining, next) d).1,
)

process_layer-edges :
    (dependents : String → List String) (layer : List String) (w : Work)
    → foldl (process_node dependents) w layer ≡ foldl process_edge w (edges dependents layer)
unfolding process_node
process_layer-edges dependents [] w = refl
process_layer-edges dependents (u ∷ us) w =
    process_layer-edges dependents us (process_node dependents w u)
    ∙ sym (foldl-append process_edge w (dependents u) (edges dependents us))

-- Counting the pairs of a dependent and its dependency both ways.
double_count : (us ds : List String) → sum_of (λ u. count u ds) us ≡ hits us ds
double_count [] [] = refl
double_count [] (d ∷ ds) = omega (arith, double_count [] ds)
double_count (u ∷ us) ds = omega (arith, double_count us ds, hits-cons u us ds)
  where
    hits-cons : (u : String) (us ds : List String) → hits (u ∷ us) ds ≡ count u ds + hits us ds
    hits-cons u us [] = refl
    hits-cons u us (d ∷ ds) = ground (arith, eq_iff u d, eq_iff d u, hits-cons u us ds)

pub hits-append : (xs ys ds : List String) → hits (xs ++ ys) ds ≡ hits xs ds + hits ys ds
hits-append xs ys [] = refl
hits-append xs ys (d ∷ ds) = omega (arith, hits-append xs ys ds, count-append d xs ys)

-- Each id names one node.
abbrev pub Distinct : List WorkflowNode → Type 0
Distinct [] = Unit
Distinct (n ∷ nodes) = (elem n.node_id (node_ids nodes) ≡ false) × Distinct nodes

pub deps_of-unknown :
    (nodes : List WorkflowNode) (v : String)
    → elem v (node_ids nodes) ≡ false
    → deps_of nodes v ≡ []
unfolding deps_of
deps_of-unknown [] v h = refl
deps_of-unknown (n ∷ nodes) v h = ground (arith, deps_of-unknown nodes v)

add_dependents-count :
    (v u node_id : String) (ds : List String) (dependents : String → List String)
    → count v (foldl (add_dependent node_id) dependents ds u)
      ≡ count v (dependents u) + (if str_eq node_id v then count u ds else 0)
unfolding add_dependent
add_dependents-count v u node_id [] dependents = ground arith
add_dependents-count v u node_id (d ∷ ds) dependents = ground (
  arith,
  eq_iff d u,
  count-append v (dependents d) (node_id ∷ []),
  add_dependents-count v u node_id ds (add_dependent node_id dependents d),
)

add_nodes-count :
    (v u : String) (nodes : List WorkflowNode) (dependents : String → List String)
    → Distinct nodes
    → count v (foldl add_node dependents nodes u)
      ≡ count v (dependents u) + count u (deps_of nodes v)
unfolding add_node deps_of
add_nodes-count v u [] dependents h = omega arith
add_nodes-count v u (n ∷ nodes) dependents h = ground (
  arith,
  eq_iff n.node_id v,
  deps_of-unknown nodes v,
  add_dependents-count v u n.node_id n.depends_on dependents,
  add_nodes-count v u nodes (add_node dependents n),
)

-- A node is listed among the dependents of `u` as often as it names `u`.
dependents_of-count :
    (nodes : List WorkflowNode) (v u : String)
    → Distinct nodes
    → count v (dependents_of nodes u) ≡ count u (deps_of nodes v)
unfolding dependents_of
dependents_of-count nodes v u h = omega (arith, add_nodes-count v u nodes (λ _. []) h)

edges-count :
    (nodes : List WorkflowNode) (v : String) (layer : List String)
    → Distinct nodes
    → count v (edges (dependents_of nodes) layer) ≡ hits layer (deps_of nodes v)
edges-count nodes v layer h = go layer ∙ double_count layer (deps_of nodes v)
  where
    go :
        (us : List String)
        → count v (edges (dependents_of nodes) us) ≡ sum_of (λ u. count u (deps_of nodes v)) us
    go [] = refl
    go (u ∷ us) = omega (
      arith,
      go us,
      dependents_of-count nodes v u h,
      count-append v (dependents_of nodes u) (edges (dependents_of nodes) us),
    )

module _ (nodes : List WorkflowNode) (distinct : Distinct nodes) (remaining : String → ℕ)
    (layer : List String) (v : String) where
  pub process_layer-remaining :
      (process_layer (dependents_of nodes) remaining layer).0 v
      ≡ remaining v - hits layer (deps_of nodes v)
  unfolding process_layer
  process_layer-remaining = rw process_layer-edges (
      process_edges-remaining v (edges (dependents_of nodes) layer) remaining []
      ∙ ap (λ c. remaining v - c) (edges-count nodes v layer distinct))

  pub process_layer-next :
      hits layer (deps_of nodes v) ≤ remaining v
      → count v (process_layer (dependents_of nodes) remaining layer).1
        ≡ falls (remaining v) (hits layer (deps_of nodes v))
  unfolding process_layer
  process_layer-next h =
      let n = edges-count nodes v layer distinct in
      let all_edges = edges (dependents_of nodes) layer in
      rw (process_layer-edges, ← n)
        (omega (arith, process_edges-next v all_edges remaining [] (rw n h)))

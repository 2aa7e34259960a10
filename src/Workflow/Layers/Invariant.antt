-- ===== src/Workflow/Layers/Invariant.antt =====
-- The invariant of the loop of `_compute_layers`, and that the loop ends within its fuel.
use jarvis.Prelude.{
  ◌+◌, ◌≤◌, String, ◌≡◌, refl, ◌&&◌, List, [], ◌∷◌, ◌++◌, length, if◌then◌else◌, ◌==◌, arith,
  eq_iff, elem, count, count-append, count→elem, elem→count, select, count-sorted,
  count_le→length_le, flatten, flatten-snoc, length-map, Bool, sorted, length-append,
}
use jarvis.Workflow.Node.{WorkflowNode, node_ids, deps_of}
use jarvis.Workflow.Layers.{process_layer, dependents_of, Kahn, round, start, indegree}
use jarvis.Workflow.Layers.Edges.{
  hits, hits-append, Distinct, deps_of-unknown, process_layer-remaining, process_layer-next,
}

pub record Inv (nodes : List WorkflowNode) (k : Kahn) : Type 0 where
  pub split :
      (v : String)
      → hits (flatten k.layers) (deps_of nodes v) + k.remaining v ≡ length (deps_of nodes v)
  pub placed :
      (v : String)
      → count v (flatten k.layers ++ k.current_layer)
        ≡ (if elem v (node_ids nodes) && k.remaining v == 0 then 1 else 0)
  pub seen : k.visited ≡ length (flatten k.layers)

pub hits-le-length :
    (xs ds : List String) → ((v : String) → count v xs ≤ 1) → hits xs ds ≤ length ds
hits-le-length xs [] h = omega arith
hits-le-length xs (d ∷ ds) h = omega (arith, h d, hits-le-length xs ds h)

pub Distinct→count :
    (nodes : List WorkflowNode) (v : String)
    → Distinct nodes
    → count v (node_ids nodes) ≡ (if elem v (node_ids nodes) then 1 else 0)
Distinct→count [] v h = refl
Distinct→count (n ∷ nodes) v h = ground (
  arith,
  eq_iff n.node_id v,
  Distinct→count nodes v,
  elem→count v (node_ids nodes),
  count→elem v (node_ids nodes),
)

count-select :
    (v : String) (p : String → Bool) (xs : List String)
    → count v (select p xs) ≡ (if p v then count v xs else 0)
count-select v p [] = ground arith
count-select v p (x ∷ xs) = ground (arith, eq_iff x v, count-select v p xs)

pub start-Inv : (nodes : List WorkflowNode) → Distinct nodes → Inv nodes (start nodes)
unfolding start flatten
start-Inv nodes h = record {
  split = λ v. omega (arith, hits-nil (deps_of nodes v));
  placed = λ v. ground (
    arith,
    count-sorted v (select (λ u. indegree nodes u == 0) (node_ids nodes)),
    count-select v (λ u. indegree nodes u == 0) (node_ids nodes),
    Distinct→count nodes v h,
  );
  seen = refl;
}
  where
    hits-nil : (ds : List String) → hits [] ds ≡ 0
    hits-nil [] = refl
    hits-nil (d ∷ ds) = omega (arith, hits-nil ds)

module _ (nodes : List WorkflowNode) (distinct : Distinct nodes) (k : Kahn)
    (inv : Inv nodes k) where
  pub at_most_once : (v : String) → count v (flatten k.layers ++ k.current_layer) ≤ 1
  at_most_once v = ground (arith, inv.placed v)

  -- No decrement of the round takes a counter below zero.
  no_underflow : (v : String) → hits k.current_layer (deps_of nodes v) ≤ k.remaining v
  no_underflow v = omega (
    arith,
    inv.split v,
    hits-append (flatten k.layers) k.current_layer (deps_of nodes v),
    hits-le-length (flatten k.layers ++ k.current_layer) (deps_of nodes v) at_most_once,
  )

  round-placed :
      (v : String)
      → count v
          ((flatten k.layers ++ k.current_layer) ++ (round (dependents_of nodes) k).current_layer)
        ≡ (if elem v (node_ids nodes) && (round (dependents_of nodes) k).remaining v == 0
            then 1
            else 0)
  unfolding round
  round-placed v =
      let work = process_layer (dependents_of nodes) k.remaining k.current_layer in
      let unknown = deps_of-unknown nodes v in
      let remaining = process_layer-remaining nodes distinct k.remaining k.current_layer v in
      let next = process_layer-next nodes distinct k.remaining k.current_layer v (no_underflow v) in
      let appended = count-append v (flatten k.layers ++ k.current_layer) (sorted work.1) in
      ground (
        arith,
        appended,
        count-sorted v work.1,
        remaining,
        next,
        no_underflow v,
        inv.placed v,
        inv.split v,
        unknown,
      )

  pub round-Inv : Inv nodes (round (dependents_of nodes) k)
  unfolding round
  round-Inv = record {
    split = λ v. rw flatten-snoc (
        omega (
          arith,
          inv.split v,
          no_underflow v,
          hits-append (flatten k.layers) k.current_layer (deps_of nodes v),
          process_layer-remaining nodes distinct k.remaining k.current_layer v,
        ));
    placed = λ v. rw flatten-snoc (round-placed v);
    seen =
        rw flatten-snoc (omega (arith, inv.seen, length-append (flatten k.layers) k.current_layer));
  }

  length-placed-le : length (flatten k.layers ++ k.current_layer) ≤ length nodes
  length-placed-le = omega (
    arith,
    length-map (λ (n : WorkflowNode). n.node_id) nodes,
    count_le→length_le (flatten k.layers ++ k.current_layer) (node_ids nodes)
        (λ v. ground (arith, inv.placed v, Distinct→count nodes v distinct)),
  )

  -- A round with a layer to place uses up one unit of a budget of `length nodes`.
  pub visited-le : k.visited + length k.current_layer ≤ length nodes
  visited-le =
      omega (arith, inv.seen, length-placed-le, length-append (flatten k.layers) k.current_layer)

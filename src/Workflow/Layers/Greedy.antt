-- ===== src/Workflow/Layers/Greedy.antt =====
-- The layering that `_compute_layers` is meant to compute: each layer holds the nodes that are
-- not placed yet and whose dependencies are all placed.
use mathlib.Core.List.{append-nil, append_assoc}
use jarvis.Prelude.{
  ◌≤◌, String, ◌≡◌, refl, Bool, ◌&&◌, not, List, [], ◌∷◌, ◌++◌, length, ◌==◌, arith, all, elem,
  count, count-append, count→elem, elem→count, flatten,
}
use jarvis.Workflow.Node.{WorkflowNode, node_ids, deps_of}
use jarvis.Workflow.Layers.{Kahn}
use jarvis.Workflow.Layers.Edges.{hits, Distinct}
use jarvis.Workflow.Layers.Invariant.{Inv, hits-le-length, at_most_once}

-- All dependencies of `v` are among `placed`.
abbrev pub ready : List WorkflowNode → List String → String → Bool
ready nodes placed v = all (λ d. elem d placed) (deps_of nodes v)

abbrev pub HoldsReady : List WorkflowNode → List String → List String → Type 0
HoldsReady nodes placed layer =
    (v : String)
    → elem v layer ≡ (elem v (node_ids nodes) && not (elem v placed) && ready nodes placed v)

abbrev pub IsGreedy : List WorkflowNode → List String → List (List String) → Type 0
IsGreedy nodes placed [] = Unit
IsGreedy nodes placed (layer ∷ layers) =
    HoldsReady nodes placed layer × IsGreedy nodes (placed ++ layer) layers

pub IsGreedy-snoc :
    (nodes : List WorkflowNode) (placed : List String) (layers : List (List String))
    (layer : List String)
    → IsGreedy nodes placed layers
    → HoldsReady nodes (placed ++ flatten layers) layer
    → IsGreedy nodes placed (layers ++ layer ∷ [])
unfolding flatten
IsGreedy-snoc nodes placed [] layer g h = (rw append-nil at h, tt)
IsGreedy-snoc nodes placed (l ∷ layers) layer g h =
    (g.0, IsGreedy-snoc nodes (placed ++ l) layers layer g.1 (rw append_assoc h))

hits-ready :
    (placed ds : List String)
    → ((v : String) → count v placed ≤ 1)
    → all (λ d. elem d placed) ds ≡ (hits placed ds == length ds)
hits-ready placed [] h = refl
hits-ready placed (d ∷ ds) h = ground (
  arith,
  h d,
  hits-ready placed ds h,
  hits-le-length placed ds h,
  elem→count d placed,
  count→elem d placed,
)

module _ (nodes : List WorkflowNode) (distinct : Distinct nodes) (k : Kahn)
    (inv : Inv nodes k) where
  pub current-HoldsReady : HoldsReady nodes (flatten k.layers) k.current_layer
  current-HoldsReady v =
      let placed = flatten k.layers in
      ground (
        arith,
        inv.split v,
        inv.placed v,
        count-append v placed k.current_layer,
        hits-ready placed (deps_of nodes v) once,
        elem→count v placed,
        count→elem v placed,
        elem→count v k.current_layer,
        count→elem v k.current_layer,
      )
    where
      once : (u : String) → count u (flatten k.layers) ≤ 1
      once u = omega (
        arith,
        at_most_once nodes distinct k inv u,
        count-append u (flatten k.layers) k.current_layer,
      )

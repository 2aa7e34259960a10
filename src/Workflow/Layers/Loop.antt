-- ===== src/Workflow/Layers/Loop.antt =====
-- The loop of `_compute_layers` ends within its fuel, with the greedy layering.
use jarvis.Prelude.{
  ℕ, zero, suc, ◌+◌, ◌<◌, String, ◌≡◌, refl, ap, ◌∙◌, List, [], ◌∷◌, length, List-cases, inl, inr,
  arith, some,
}
use jarvis.Workflow.Node.{WorkflowNode}
use jarvis.Workflow.Layers.{dependents_of, Kahn, round, rounds, start}
use jarvis.Workflow.Layers.Edges.{Distinct}
use jarvis.Workflow.Layers.Invariant.{Inv, start-Inv, round-Inv, visited-le}
use jarvis.Workflow.Layers.Greedy.{IsGreedy, IsGreedy-snoc, current-HoldsReady}

round-IsGreedy :
    (nodes : List WorkflowNode) (distinct : Distinct nodes) (k : Kahn)
    → Inv nodes k
    → IsGreedy nodes [] k.layers
    → IsGreedy nodes [] (round (dependents_of nodes) k).layers
unfolding round
round-IsGreedy nodes distinct k inv greedy =
    IsGreedy-snoc nodes [] k.layers k.current_layer greedy (current-HoldsReady nodes distinct k inv)

-- The state in which the loop ends.
pub record Ended (nodes : List WorkflowNode) (fuel : ℕ) (k : Kahn) : Type 0 where
  pub last : Kahn
  pub reached : rounds fuel (dependents_of nodes) k ≡ some last
  pub inv : Inv nodes last
  pub greedy : IsGreedy nodes [] last.layers
  pub empty : last.current_layer ≡ []

rounds-ended :
    (fuel : ℕ) (dependents : String → List String) (k : Kahn)
    → k.current_layer ≡ []
    → rounds fuel dependents k ≡ some k
unfolding rounds
rounds-ended zero dependents k e = ground arith
rounds-ended (suc fuel) dependents k e = ground arith

rounds-round :
    (fuel : ℕ) (dependents : String → List String) (k : Kahn) (v : String) (vs : List String)
    → k.current_layer ≡ v ∷ vs
    → rounds (suc fuel) dependents k ≡ rounds fuel dependents (round dependents k)
unfolding rounds
rounds-round fuel dependents k v vs e = ground arith

visited-round :
    (dependents : String → List String) (k : Kahn)
    → (round dependents k).visited ≡ k.visited + length k.current_layer
unfolding round
visited-round dependents k = refl

module _ (nodes : List WorkflowNode) (distinct : Distinct nodes) where
  stop :
      (fuel : ℕ) (k : Kahn)
      → Inv nodes k
      → IsGreedy nodes [] k.layers
      → k.current_layer ≡ []
      → Ended nodes fuel k
  stop fuel k inv greedy e = record {
    last = k;
    reached = rounds-ended fuel (dependents_of nodes) k e;
    inv = inv;
    greedy = greedy;
    empty = e;
  }

  next :
      (fuel : ℕ) (k : Kahn) (v : String) (vs : List String)
      → k.current_layer ≡ v ∷ vs
      → Ended nodes fuel (round (dependents_of nodes) k)
      → Ended nodes (suc fuel) k
  next fuel k v vs e rest = record {
    last = rest.last;
    reached = rounds-round fuel (dependents_of nodes) k v vs e ∙ rest.reached;
    inv = rest.inv;
    greedy = rest.greedy;
    empty = rest.empty;
  }

  rounds-Ended :
      (fuel : ℕ) (k : Kahn)
      → Inv nodes k
      → IsGreedy nodes [] k.layers
      → length nodes < k.visited + fuel
      → Ended nodes fuel k
  rounds-Ended zero k inv greedy h = elim (List-cases k.current_layer) [
    | inl e ↦ stop zero k inv greedy e
    | inr (v, vs, e) ↦ absurd (omega (arith, visited-le nodes distinct k inv, ap length e))
  ]
  rounds-Ended (suc fuel) k inv greedy h = elim (List-cases k.current_layer) [
    | inl e ↦ stop (suc fuel) k inv greedy e
    | inr (v, vs, e) ↦ next fuel k v vs e (
        rounds-Ended fuel (round (dependents_of nodes) k) (round-Inv nodes distinct k inv)
          (round-IsGreedy nodes distinct k inv greedy)
          (omega (arith, visited-round (dependents_of nodes) k, ap length e)))
  ]

  pub start-Ended : Ended nodes (suc (length nodes)) (start nodes)
  start-Ended =
      rounds-Ended (suc (length nodes)) (start nodes) (start-Inv nodes distinct)
        (unfold start in tt) (unfold start in omega arith)

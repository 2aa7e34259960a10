-- ===== src/Workflow/Engine/Settled.antt =====
-- The invariant of the loop over the layers: what is placed has its final result.
use jarvis.Prelude.{
  String, ◌≡◌, refl, ap, true, false, ◌⊎◌, List, [], ◌∷◌, ◌++◌, arith, elem, elem-append,
  if◌then◌else◌, all-elem, all-intro, all-cong, flatten, Bool-cases, inl, inr,
}
use mathlib.Core.List.{append-nil, append_assoc}
use jarvis.Workflow.Node.{WorkflowNode, deps_of}
use jarvis.Workflow.Layers.Greedy.{ready, HoldsReady, IsGreedy}
use jarvis.Workflow.Engine.{
  Env, NodeResult, Results, fail_fast, continue, pending_result, skipped_result, is_succeeded,
  execute_node, satisfied, any_failed, step, abort, run_layers,
}
use jarvis.Workflow.Engine.Steps.{Completes, step_lem}

-- The result that a node is meant to have: that of its dispatch if all of its dependencies
-- succeeded, and a mark if not.
abbrev pub expected : Env → List WorkflowNode → Results → String → NodeResult
expected env nodes results v =
    if satisfied nodes results v then execute_node env nodes v else skipped_result v

pub record Settled (env : Env) (nodes : List WorkflowNode) (placed : List String)
    (results : Results) : Type 0 where
  pub done : (v : String) → elem v placed ≡ true → results v ≡ expected env nodes results v
  pub waits : (v : String) → elem v placed ≡ false → results v ≡ pending_result v
  pub closed : (v : String) → elem v placed ≡ true → ready nodes placed v ≡ true

module _ (env : Env) (completes : Completes env) (nodes : List WorkflowNode) (placed : List String)
    (results : Results) (settled : Settled env nodes placed results) (layer : List String)
    (holds : HoldsReady nodes placed layer) where
  -- The layer does not touch what is placed.
  kept : (v : String) → elem v placed ≡ true → step env nodes layer results v ≡ results v
  kept v m = ground (arith, step_lem env completes nodes layer results v, holds v)

  satisfied-step :
      (v : String)
      → ready nodes placed v ≡ true
      → satisfied nodes (step env nodes layer results) v ≡ satisfied nodes results v
  satisfied-step v r =
      all-cong (λ d. is_succeeded (step env nodes layer results d).status)
        (λ d. is_succeeded (results d).status) (deps_of nodes v)
        (λ d m.
          ap (λ (x : NodeResult). is_succeeded x.status)
            (kept d (all-elem (λ u. elem u placed) (deps_of nodes v) d r m)))

  ready-append : (v : String) → ready nodes placed v ≡ true → ready nodes (placed ++ layer) v ≡ true
  ready-append v r =
      all-intro (λ d. elem d (placed ++ layer)) (deps_of nodes v)
        (λ d m. ground (
          arith,
          elem-append d placed layer,
          all-elem (λ u. elem u placed) (deps_of nodes v) d r m,
        ))

  step-done :
      (v : String)
      → elem v (placed ++ layer) ≡ true
      → step env nodes layer results v ≡ expected env nodes (step env nodes layer results) v
  step-done v m = elim (Bool-cases (elem v placed)) [
    | inl old ↦
        ground (arith, kept v old, settled.done v old, satisfied-step v (settled.closed v old))
    | inr new ↦
        let here : elem v layer ≡ true = ground (arith, elem-append v placed layer) in
        ground (arith, holds v, step_lem env completes nodes layer results v, satisfied-step v)
  ]

  step-Settled : Settled env nodes (placed ++ layer) (step env nodes layer results)
  step-Settled = record {
    done = step-done;
    waits = λ v m. ground (
      arith,
      elem-append v placed layer,
      step_lem env completes nodes layer results v,
      settled.waits v,
    );
    closed = λ v m.
        ground (arith, elem-append v placed layer, holds v, settled.closed v, ready-append v);
  }

-- How the loop ends under the fail-fast policy.
pub record Stopped (env : Env) (nodes : List WorkflowNode) (results : Results) : Type 0 where
  pub placed : List String
  pub before : Results
  pub settled : Settled env nodes placed before
  pub failure : any_failed nodes before ≡ true
  pub aborted : results ≡ abort nodes before

module _ (env : Env) (completes : Completes env) (nodes : List WorkflowNode) where
  pub continue-Settled :
      (placed : List String) (layers : List (List String)) (results : Results)
      → IsGreedy nodes placed layers
      → Settled env nodes placed results
      → Settled env nodes (placed ++ flatten layers) (run_layers env nodes continue layers results)
  unfolding flatten run_layers
  continue-Settled placed [] results g s = rw append-nil s
  continue-Settled placed (layer ∷ layers) results g s =
      rw (← append_assoc placed layer (flatten layers)) (
        continue-Settled (placed ++ layer) layers (step env nodes layer results) g.1
          (step-Settled env completes nodes placed results s layer g.0))

  pub fail_fast-Settled :
      (placed : List String) (layers : List (List String)) (results : Results)
      → IsGreedy nodes placed layers
      → Settled env nodes placed results
      → any_failed nodes results ≡ false
      → Settled env nodes (placed ++ flatten layers) (run_layers env nodes fail_fast layers results)
          × (any_failed nodes (run_layers env nodes fail_fast layers results) ≡ false)
        ⊎ Stopped env nodes (run_layers env nodes fail_fast layers results)
  unfolding flatten run_layers
  fail_fast-Settled placed [] results g s h = inl (rw append-nil s, h)
  fail_fast-Settled placed (layer ∷ layers) results g s h =
      let after = step env nodes layer results in
      let settled = step-Settled env completes nodes placed results s layer g.0 in
      elim (Bool-cases (any_failed nodes after)) [
        | inl failure ↦ inr (record {
          placed = placed ++ layer;
          before = after;
          settled = settled;
          failure = failure;
          aborted = rw failure;
        })
        | inr none ↦
            rw (none, ← append_assoc placed layer (flatten layers))
              (fail_fast-Settled (placed ++ layer) layers after g.1 settled none)
      ]

  pub start-Settled : Settled env nodes [] pending_result
  start-Settled = record { done = λ v m. cc; waits = λ v m. refl; closed = λ v m. cc }

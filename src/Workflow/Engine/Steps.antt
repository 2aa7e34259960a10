-- ===== src/Workflow/Engine/Steps.antt =====
-- What one layer does to the results, whatever the order in which its threads end.
use jarvis.Prelude.{
  String, ◌≡◌, refl, Bool, true, false, not, ◌&&◌, List, [], ◌∷◌, foldl, arith, eq_iff, elem,
  select, is_empty, if◌then◌else◌,
}
use jarvis.Workflow.Node.{WorkflowNode}
use jarvis.Workflow.Engine.{
  Env, NodeResult, Results, write, skipped_result, execute_node, satisfied, run_layer, step,
}

-- Every thread of a layer ends, and no other.
abbrev pub Completes : Env → Type 0
Completes env = (layer : List String) (v : String) → elem v (env.completed layer) ≡ elem v layer

write_all :
    (f : String → NodeResult) (vs : List String) (results : Results) (u : String)
    → foldl (write f) results vs u ≡ (if elem u vs then f u else results u)
write_all f [] results u = refl
write_all f (v ∷ vs) results u = ground (arith, eq_iff v u, write_all f vs (write f results v) u)

pub elem-select :
    (p : String → Bool) (vs : List String) (u : String) → elem u (select p vs) ≡ (elem u vs && p u)
elem-select p [] u = refl
elem-select p (v ∷ vs) u = ground (arith, eq_iff v u, elem-select p vs u)

select-nil :
    (p : String → Bool) (vs : List String) (u : String)
    → is_empty (select p vs) ≡ true
    → (elem u vs && p u) ≡ false
select-nil p [] u h = refl
select-nil p (v ∷ vs) u h = ground (arith, eq_iff v u, select-nil p vs u)

module _ (env : Env) (completes : Completes env) (nodes : List WorkflowNode) (layer : List String)
    (results : Results) where
  pub step_lem :
      (u : String)
      → step env nodes layer results u ≡ (
          if elem u layer
          then if satisfied nodes results u then execute_node env nodes u else skipped_result u
          else results u)
  unfolding step run_layer
  step_lem u =
      let runnable = select (satisfied nodes results) layer in
      let blocked = select (λ v. not (elem v runnable)) layer in
      let marked = foldl (write skipped_result) results blocked in
      ground (
        arith,
        completes runnable u,
        write_all (execute_node env nodes) (env.completed runnable) marked u,
        write_all skipped_result blocked results u,
        elem-select (satisfied nodes results) layer u,
        elem-select (λ v. not (elem v runnable)) layer u,
        select-nil (satisfied nodes results) layer u,
      )

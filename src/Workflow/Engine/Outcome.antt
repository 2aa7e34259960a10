-- ===== src/Workflow/Engine/Outcome.antt =====
-- What a run of an accepted workflow returns or raises.
use jarvis.Prelude.{
  ℕ, zero, suc, ◌<◌, String, ◌≡◌, ◌≢◌, ◌↔◌, refl, ap, Bool, true, false, not, ◌&&◌, ◌⊎◌, List, [],
  ◌∷◌, arith, elem, all, any, all-elem, all-intro, any-false, any-true, Bool-cases, inl, inr,
  flatten,
}
use jarvis.Result.{ok, err}
use jarvis.Workflow.Node.{WorkflowNode, node_ids, deps_of}
use jarvis.Workflow.Build.{Workflow, new_workflow}
use jarvis.Workflow.Build.Accepts.{Layered, new_workflow-Layered}
use jarvis.Workflow.Engine.{
  Env, Engine, Results, RunResult, FailurePolicy, fail_fast, continue, pending_result, is_succeeded,
  is_failed, failed_nodes, satisfied, any_failed, abort, execute_node, run_layers, all_succeeded,
  run,
}
use jarvis.Workflow.Engine.Steps.{Completes, elem-select}
use jarvis.Workflow.Engine.Settled.{
  expected, Settled, Stopped, continue-Settled, fail_fast-Settled, start-Settled,
}

-- The dispatch of every node returns.
abbrev pub all_dispatched : Env → List WorkflowNode → Bool
all_dispatched env nodes =
    all (λ v. is_succeeded (execute_node env nodes v).status) (node_ids nodes)

module _ (env : Env) (nodes : List WorkflowNode) where
  -- A dispatched node has succeeded or failed.
  execute_status :
      (v : String)
      → is_failed (execute_node env nodes v).status
        ≡ not (is_succeeded (execute_node env nodes v).status)
  unfolding execute_node
  execute_status v = ground arith

module _ (env : Env) (w : Workflow) (layered : Layered w) (results : Results)
    (settled : Settled env w.nodes (flatten w.layers) results) where
  settled_node :
      (v : String) → elem v (node_ids w.nodes) ≡ true → results v ≡ expected env w.nodes results v
  settled_node v m = settled.done v (layered.placed v m)

  -- Where nothing failed everything succeeded.
  succeeded_below :
      any_failed w.nodes results ≡ false
      → (bound : ℕ) (v : String) → layered.rank v < bound
      → elem v (node_ids w.nodes) ≡ true
      → is_succeeded (results v).status ≡ true
  succeeded_below h zero v lt m = absurd (omega arith)
  succeeded_below h (suc bound) v lt m =
      let deps : satisfied w.nodes results v ≡ true =
        all-intro (λ d. is_succeeded (results d).status) (deps_of w.nodes v)
          (λ d dep.
            succeeded_below h bound d (omega (arith, layered.ranked v d dep))
              (layered.closed v d dep)) in
      ground (
        arith,
        deps,
        settled_node v m,
        execute_status env w.nodes v,
        any-false (λ u. is_failed (results u).status) (node_ids w.nodes) v h m,
      )

  settled-all_succeeded : any_failed w.nodes results ≡ false → all_succeeded w.nodes results ≡ true
  settled-all_succeeded h =
      all-intro (λ v. is_succeeded (results v).status) (node_ids w.nodes)
        (λ v m. succeeded_below h (suc (layered.rank v)) v (omega arith) m)

  all_succeeded-dispatched :
      all_succeeded w.nodes results ≡ true → all_dispatched env w.nodes ≡ true
  all_succeeded-dispatched h =
      all-intro (λ v. is_succeeded (execute_node env w.nodes v).status) (node_ids w.nodes)
        (λ v m. ground (
          arith,
          settled_node v m,
          all-elem (λ u. is_succeeded (results u).status) (node_ids w.nodes) v h m,
        ))

no_failure :
    (env : Env) (nodes : List WorkflowNode) (placed : List String) (results : Results)
    → Settled env nodes placed results
    → all_dispatched env nodes ≡ true
    → any_failed nodes results ≡ false
no_failure env nodes placed results s h = elim (Bool-cases (any_failed nodes results)) [
  | inl failure ↦
      let (v, m, e) = any-true (λ u. is_failed (results u).status) (node_ids nodes) failure in
      absurd (
        ground (
          arith,
          s.done v,
          s.waits v,
          execute_status env nodes v,
          all-elem (λ u. is_succeeded (execute_node env nodes u).status) (node_ids nodes) v h m,
        ))
  | inr none ↦ none
]

-- A failure stays visible when the policy marks the nodes that wait.
Stopped-failure :
    (env : Env) (nodes : List WorkflowNode) (results : Results)
    → Stopped env nodes results
    → (v : String) × (elem v (node_ids nodes) ≡ true) × (is_failed (results v).status ≡ true)
Stopped-failure env nodes results s =
    let (v, m, e) = any-true (λ u. is_failed (s.before u).status) (node_ids nodes) s.failure in
    (v, m, rw s.aborted (unfold abort in ground arith))

Stopped-fails :
    (env : Env) (nodes : List WorkflowNode) (results : Results)
    → Stopped env nodes results
    → all_succeeded nodes results ≡ false
Stopped-fails env nodes results s =
    let (v, m, e) = Stopped-failure env nodes results s in
    elim (Bool-cases (all_succeeded nodes results)) [
      | inl h ↦
          absurd
            (ground (arith, all-elem (λ u. is_succeeded (results u).status) (node_ids nodes) v h m))
      | inr h ↦ h
    ]

none_pending : (vs : List String) → any (λ v. is_failed (pending_result v).status) vs ≡ false
none_pending [] = refl
none_pending (v ∷ vs) = none_pending vs

Settled-success :
    (env : Env) (w : Workflow) (layered : Layered w) (results : Results)
    → Settled env w.nodes (flatten w.layers) results
    → all_succeeded w.nodes results ≡ all_dispatched env w.nodes
Settled-success env w layered results s = elim (Bool-cases (all_dispatched env w.nodes)) [
  | inl h ↦ rw h (
      settled-all_succeeded env w layered results s
        (no_failure env w.nodes (flatten w.layers) results s h))
  | inr h ↦ ground (arith, all_succeeded-dispatched env w layered results s)
]

Stopped-success :
    (env : Env) (nodes : List WorkflowNode) (results : Results)
    → Stopped env nodes results
    → all_succeeded nodes results ≡ all_dispatched env nodes
Stopped-success env nodes results s = ground (
  arith,
  Stopped-fails env nodes results s,
  s.failure,
  no_failure env nodes s.placed s.before s.settled,
)

module _ (env : Env) (completes : Completes env) (w : Workflow) (layered : Layered w) where
  abbrev final : FailurePolicy → Results
  final policy = run_layers env w.nodes policy w.layers pending_result

  final-continue : Settled env w.nodes (flatten w.layers) (final continue)
  final-continue =
      continue-Settled env completes w.nodes [] w.layers pending_result layered.greedy
        (start-Settled env completes w.nodes)

  final-fail_fast :
      Settled env w.nodes (flatten w.layers) (final fail_fast)
        × (any_failed w.nodes (final fail_fast) ≡ false)
      ⊎ Stopped env w.nodes (final fail_fast)
  final-fail_fast =
      fail_fast-Settled env completes w.nodes [] w.layers pending_result layered.greedy
        (start-Settled env completes w.nodes) (none_pending (node_ids w.nodes))

  -- Whatever the policy, the nodes all succeed exactly if every dispatch returns.
  final_success :
      (policy : FailurePolicy) → all_succeeded w.nodes (final policy) ≡ all_dispatched env w.nodes
  final_success fail_fast = elim final-fail_fast [
    | inl (s, none) ↦ Settled-success env w layered (final fail_fast) s
    | inr s ↦ Stopped-success env w.nodes (final fail_fast) s
  ]
  final_success continue = Settled-success env w layered (final continue) final-continue

-- Under the policy `continue` a run of an accepted workflow returns, and each node has the result
-- of its dispatch if all of its dependencies succeeded, and is marked as skipped if not. The
-- threads of a layer may end in any order.
pub run-continue :
    (env : Env) (engine : Engine) (workflow_id : String) (nodes : List WorkflowNode) (w : Workflow)
    → Completes env
    → engine.failure_policy ≡ continue
    → new_workflow workflow_id nodes ≡ ok w
    → (r : RunResult) × (run env engine w ≡ ok r)
      × ((v : String)
          → elem v (node_ids w.nodes) ≡ true
          → r.results v ≡ expected env w.nodes r.results v)
unfolding run
run-continue env engine workflow_id nodes w completes policy e =
    let layered = new_workflow-Layered workflow_id nodes w e in
    let results = final env completes w layered continue in
    (
      record {
        workflow_id = w.workflow_id;
        success = all_succeeded w.nodes results;
        layers = w.layers;
        results = results;
        started_at = env.run_times.0;
        finished_at = env.run_times.1;
      },
      rw policy,
      settled_node env w layered results (final-continue env completes w layered),
    )

-- Whatever the policy, a run returns with `success` exactly if every node's dispatch returns.
pub run-success :
    (env : Env) (engine : Engine) (workflow_id : String) (nodes : List WorkflowNode) (w : Workflow)
    → Completes env
    → new_workflow workflow_id nodes ≡ ok w
    → ((r : RunResult) × (run env engine w ≡ ok r) × (r.success ≡ true))
      ↔ (all_dispatched env w.nodes ≡ true)
unfolding run
run-success env engine workflow_id nodes w completes e =
    let layered = new_workflow-Layered workflow_id nodes w e in
    let same = final_success env completes w layered engine.failure_policy in
    let results = final env completes w layered engine.failure_policy in
    (
      λ (r, returned, success). ground (arith, same),
      λ h. (
        record {
          workflow_id = w.workflow_id;
          success = true;
          layers = w.layers;
          results = results;
          started_at = env.run_times.0;
          finished_at = env.run_times.1;
        },
        ground (arith, same, h),
        refl,
      ),
    )

-- Why a node has failed.
failure_cause :
    (env : Env) (nodes : List WorkflowNode) (placed : List String) (results : Results)
    → Settled env nodes placed results
    → (v : String) → is_failed (results v).status ≡ true
    → (is_failed (execute_node env nodes v).status ≡ true)
      × ((d : String)
          → elem d (deps_of nodes v) ≡ true
          → is_succeeded (execute_node env nodes d).status ≡ true)
failure_cause env nodes placed results s v h =
    let ran : satisfied nodes results v ≡ true = ground (arith, s.done v, s.waits v) in
    (
      ground (arith, s.done v, s.waits v),
      λ d dep.
          let before =
            all-elem (λ u. is_succeeded (results u).status) (deps_of nodes v) d ran dep in
          ground (arith, s.done d, s.waits d, before),
    )

run_err :
    (env : Env) (engine : Engine) (w : Workflow) (failed : List String)
    → run env engine w ≡ err failed
    → (engine.failure_policy ≡ fail_fast)
      × (all_succeeded w.nodes (run_layers env w.nodes fail_fast w.layers pending_result) ≡ false)
      × (failed_nodes w.nodes (run_layers env w.nodes fail_fast w.layers pending_result) ≡ failed)
unfolding run
run_err env engine w failed raised = (ground arith, ground arith, ground arith)

abort-failed :
    (nodes : List WorkflowNode) (results : Results) (v : String)
    → is_failed (abort nodes results v).status ≡ is_failed (results v).status
unfolding abort
abort-failed nodes results v = ground arith

-- Under the policy `fail_fast` a run that raises names at least one node, and of each node that it
-- names the dispatch raised, after all of its dependencies' dispatches returned.
pub run-fail_fast :
    (env : Env) (engine : Engine) (workflow_id : String) (nodes : List WorkflowNode) (w : Workflow)
    → Completes env
    → new_workflow workflow_id nodes ≡ ok w
    → (failed : List String) → run env engine w ≡ err failed
    → (failed ≢ [])
      × ((v : String)
          → elem v failed ≡ true
          → (is_failed (execute_node env w.nodes v).status ≡ true)
            × ((d : String)
                → elem d (deps_of w.nodes v) ≡ true
                → is_succeeded (execute_node env w.nodes d).status ≡ true))
run-fail_fast env engine workflow_id nodes w completes e failed raised =
    let layered = new_workflow-Layered workflow_id nodes w e in
    let results = final env completes w layered fail_fast in
    let (_, unsuccessful, named) = run_err env engine w failed raised in
    elim (final-fail_fast env completes w layered) [
      | inl (s, none) ↦
          absurd (ground (arith, unsuccessful, settled-all_succeeded env w layered results s none))
      | inr s ↦ (
        λ empty.
            let (v, m, f) = Stopped-failure env w.nodes results s in
            ground (arith, listed results v, m, f, named, ap (elem v) empty),
        λ v m. failure_cause env w.nodes s.placed s.before s.settled v (
            ground (
              arith,
              listed results v,
              m,
              named,
              ap (λ (r : Results). is_failed (r v).status) s.aborted,
              abort-failed w.nodes s.before v,
            )),
      )
    ]
  where
    listed :
        (results : Results) (v : String)
        → elem v (failed_nodes w.nodes results)
          ≡ (elem v (node_ids w.nodes) && is_failed (results v).status)
    listed results v = elem-select (λ u. is_failed (results u).status) (node_ids w.nodes) v

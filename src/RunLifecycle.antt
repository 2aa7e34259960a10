-- ===== src/RunLifecycle.antt =====
-- The decisions of src/app/run_lifecycle.py: what a recovery advises, and when a context event makes
-- a checkpoint. A text that the source formats is a constructor with the values it puts in.
mod Samples
use jarvis.Prelude.{
  ℕ, ◌+◌, ◌<◌, ◌≡◌, ◌≢◌, ◌↔◌, All, refl, sym, Bool, true, false, Bool-cases, inl, inr, not, ◌||◌,
  if◌then◌else◌, leb, is_empty, length, List, [], ◌∷◌, Option, some, none, String, str_eq, eq_iff,
  arith,
}
use mathlib.Core.Path.{subst}
use jarvis.RunState.Roundtrip.{evolve_lem}
use jarvis.Result.{Result, ok}
use jarvis.ContextBudget.{ContextLevel, green, amber, orange, red, WatermarkChanged}
use jarvis.ContextBudget.Monitor.{level_rank}
use jarvis.RunState.{
  RunStatus, running, unknown, partial, WorkPackageState, RunState, Library, state_valid,
}
use jarvis.RunState.Document.{is_one}
use jarvis.RunState.Decode.{set_context_level, set_next_action, evolve}

-- `WorkspaceSnapshot` of src/adapters/git_workspace.py.
pub record WorkspaceSnapshot : Type 0 where
  pub head : String
  pub branch : String
  pub dirty_paths : List String

-- The reasons of `_recovery_action`, each with the values of its action's text.
pub data Recovery : Type 0 where
  red_context : Recovery
  interrupted_running : (target : String) → Recovery
  workspace_drift : (target : String) → Recovery
  partial_work_package : WorkPackageState → Recovery
  dirty_workspace : (count : ℕ) → (target : String) → Recovery
  saved_next_action : String → Recovery

abbrev pub is_running : RunStatus → Bool
is_running running = true
is_running _ = false

abbrev pub is_partial : RunStatus → Bool
is_partial partial = true
is_partial _ = false

abbrev pub is_red : ContextLevel → Bool
is_red red = true
is_red _ = false

-- next((package for package in packages if p(package)), None)
abbrev pub first_package : (RunStatus → Bool) → List WorkPackageState → Option WorkPackageState
first_package p [] = none
first_package p (w ∷ packages) = if p w.status then some w else first_package p packages

unfoldable pub resume_target : RunState → String
resume_target state = elim (first_package (λ s. is_running s || is_partial s) state.work_packages) [
  | none ↦ state.current_stage
  | some active ↦ active.work_package_id
]

-- workspace.head != state.base_commit or workspace.branch != state.active_branch
abbrev pub drifted : RunState → WorkspaceSnapshot → Bool
drifted state workspace =
    not (str_eq workspace.head state.base_commit)
    || not (str_eq workspace.branch state.active_branch)

unfoldable pub recovery_action : RunState → WorkspaceSnapshot → Recovery
recovery_action state workspace =
    let target = resume_target state in
    if is_red state.context_level
    then red_context
    else if is_running state.status
    then interrupted_running target
    else if drifted state workspace
    then workspace_drift target
    else elim (first_package is_partial state.work_packages) [
      | some package_state ↦ partial_work_package package_state
      | none ↦
          if not (is_empty workspace.dirty_paths)
          then dirty_workspace (length workspace.dirty_paths) target
          else saved_next_action state.next_action
    ]

-- The status with which `recover_active` evolves the saved state.
unfoldable pub recovered_status : RunStatus → RunStatus
recovered_status status = if is_running status then unknown else status

-- `_CONTEXT_ACTIONS`; the level green never rises to be one of them.
abbrev pub context_action : ContextLevel → String
context_action green = ""
context_action amber = "Deduplicate context and reference large outputs by file"
context_action orange = "Update recovery document and complete active work-package handoff"
context_action red = "Persist recovery checkpoint and stop dispatch before compression"

-- The state that `handle_context_event` checkpoints, `stored` being the active one: `none` is its
-- return of None.
unfoldable pub handle_context_event :
    Library
    → WatermarkChanged
    → (stored : Option RunState) → (now : String) → Option (Result {0, 0} String RunState)
handle_context_event l event none now = none
handle_context_event l event (some state) now =
    if leb (level_rank event.current) (level_rank event.previous)
    then none
    else if leb (level_rank event.current) (level_rank state.context_level)
    then none
    else some (
        evolve l state now
          (set_context_level event.current ∷ set_next_action (context_action event.current) ∷ []))

nothing : {A : Type 0} (xs : List A) → is_empty xs ≡ true → xs ≡ []
nothing [] h = refl
nothing (x ∷ xs) h = absurd (ground (arith, h))

not_red : (level : ContextLevel) → level ≢ red → is_red level ≡ false
not_red red h = absurd (h refl)
not_red green h = refl
not_red amber h = refl
not_red orange h = refl

not_running : (status : RunStatus) → status ≢ running → is_running status ≡ false
not_running status h = ground (arith, h)

first_package-none :
    (p : RunStatus → Bool) (packages : List WorkPackageState)
    → first_package p packages ≡ none
    → All (λ w. p w.status ≡ false) packages
first_package-none p [] h = tt
first_package-none p (w ∷ packages) h = elim (Bool-cases (p w.status)) [
  | inl here ↦ absurd (ground (arith, here, h))
  | inr other ↦ (other, first_package-none p packages (ground (arith, other, h)))
]

first_package-All :
    (p : RunStatus → Bool) (packages : List WorkPackageState)
    → All (λ w. p w.status ≡ false) packages
    → first_package p packages ≡ none
first_package-All p [] h = refl
first_package-All p (w ∷ packages) (other, later) = rw other (first_package-All p packages later)

-- A recovery goes on with the saved action exactly if the context is not red, no run was interrupted,
-- the workspace is where it was and has no uncommitted path, and each work package is something else
-- than partial.
pub recovery_action-saved :
    (state : RunState) (workspace : WorkspaceSnapshot)
    → (recovery_action state workspace ≡ saved_next_action state.next_action) ↔ (
        (state.context_level ≢ red)
        × (state.status ≢ running)
        × (workspace.head ≡ state.base_commit)
        × (workspace.branch ≡ state.active_branch)
        × All (λ w. is_partial w.status ≡ false) state.work_packages
        × (workspace.dirty_paths ≡ []))
unfolding recovery_action
recovery_action-saved state workspace =
    let same_head = eq_iff workspace.head state.base_commit in
    let same_branch = eq_iff workspace.branch state.active_branch in
    (
      λ h. (
        λ e. absurd (ground (arith, h, e)),
        λ e. absurd (ground (arith, h, e)),
        ground (arith, h, same_head),
        ground (arith, h, same_branch),
        first_package-none is_partial state.work_packages (ground (arith, h)),
        nothing workspace.dirty_paths (ground (arith, h)),
      ),
      λ (level, status, head, branch, packages, dirty).
          let none_partial = first_package-All is_partial state.work_packages packages in
          let calm = not_red state.context_level level in
          let still = not_running state.status status in
          ground (arith, calm, still, head, branch, none_partial, dirty, same_head, same_branch),
    )

-- A context event that is followed by a checkpoint raises the level of the stored state and its
-- revision; the state passes its checks.
pub handle_context_event_lem :
    (l : Library) (event : WatermarkChanged) (state next : RunState) (now : String)
    → handle_context_event l event (some state) now ≡ some (ok next)
    → (level_rank state.context_level < level_rank next.context_level)
      × (next.context_level ≡ event.current)
      × (next.revision ≡ state.revision + 1)
      × (state_valid l is_one next ≡ true)
unfolding handle_context_event
handle_context_event_lem l event state next now h =
    let changes =
      set_context_level event.current ∷ set_next_action (context_action event.current) ∷ [] in
    let evolves : evolve l state now changes ≡ ok next = ground (arith, h) in
    let (revision, floor, time, valid, free, known, status, level, action) =
      evolve_lem l state next now changes evolves in
    let rises : level_rank state.context_level < level_rank event.current = ground (arith, h) in
    (
      subst (λ c. level_rank state.context_level < level_rank c) (sym level) rises,
      level,
      revision,
      valid,
    )

-- ===== src/RunLifecycle/Samples.antt =====
-- A stored state, and the theorems at it.
use jarvis.Prelude.{◌+◌, ◌<◌, ◌≡◌, ◌≢◌, ◌↔◌, All, refl, true, false, [], ◌∷◌, some, none, strip}
use jarvis.Result.{ok}
use jarvis.Json.{int, pos}
use jarvis.ContextBudget.{WatermarkChanged, green, amber, red}
use jarvis.ContextBudget.Monitor.{level_rank}
use jarvis.RunState.{
  planning, partial, running, WorkPackageState, RunState, Library, is_concrete_action, is_run_id,
  is_commit, state_valid,
}
use jarvis.RunState.Document.{is_one}
use jarvis.RunState.Decode.{evolve}
use jarvis.RunLifecycle.{
  WorkspaceSnapshot, saved_next_action, dirty_workspace, partial_work_package, is_partial,
  resume_target, recovery_action, handle_context_event, recovery_action-saved,
  handle_context_event_lem,
}

-- A library that folds no text and takes every text for a time.
abbrev library : Library
library = record { folded = λ s. s; is_aware_time = λ s. true }

abbrev stored : RunState
stored = record {
  schema_version = int (pos 1);
  run_id = "run-20260102-030405";
  revision = 3;
  updated_at = "then";
  goal = "A model";
  current_stage = "s1";
  status = planning;
  base_commit = "0123456789abcdef0123456789abcdef01234567";
  active_branch = "main";
  context_level = green;
  next_action = "Prove it";
  next_command = none;
  stages = [];
  work_packages = [];
  revision_floor = 3;
}

abbrev workspace : WorkspaceSnapshot
workspace = record { head = stored.base_commit; branch = "main"; dirty_paths = [] }

-- A partial work package comes before the uncommitted paths.
abbrev work : WorkPackageState
work = record {
  work_package_id = "w1";
  objective = "Model the bus";
  status = partial;
  allowed_paths = [];
  forbidden_paths = [];
  dependencies = [];
  acceptance_commands = [];
  handoff_path = none;
  next_action = none;
}

dirty :
    recovery_action stored (record workspace { dirty_paths = "a.py" ∷ [] }) ≡ dirty_workspace 1 "s1"
unfolding recovery_action resume_target
dirty = refl

partial_first :
    recovery_action
      (record stored { work_packages = work ∷ [] })
      (record workspace { dirty_paths = "a.py" ∷ [] })
    ≡ partial_work_package work
unfolding recovery_action
partial_first = refl

abbrev finished : RunState
finished = record stored { work_packages = record work { status = planning } ∷ [] }

recovery_action-saved_example :
    (recovery_action finished workspace ≡ saved_next_action "Prove it") ↔ (
      (green ≢ red)
      × (planning ≢ running)
      × (workspace.head ≡ stored.base_commit)
      × (workspace.branch ≡ stored.active_branch)
      × All (λ w. is_partial w.status ≡ false) finished.work_packages
      × (workspace.dirty_paths ≡ []))
recovery_action-saved_example = recovery_action-saved finished workspace

abbrev event : WatermarkChanged
event = record {
  previous = green;
  current = amber;
  snapshot = record { used_tokens = 70; total_tokens = 100; source = "runtime" };
}

abbrev next : RunState
next = record stored {
  revision = 4;
  updated_at = "now";
  revision_floor = 4;
  context_level = amber;
  next_action = "Deduplicate context and reference large outputs by file";
}

handled : handle_context_event library event (some stored) "now" ≡ some (ok next)
unfolding handle_context_event evolve state_valid is_concrete_action is_run_id is_commit strip
handled = refl

handle_context_event_lem_example :
    (level_rank stored.context_level < level_rank next.context_level)
    × (next.context_level ≡ event.current)
    × (next.revision ≡ stored.revision + 1)
    × (state_valid library is_one next ≡ true)
handle_context_event_lem_example = handle_context_event_lem library event stored next "now" handled

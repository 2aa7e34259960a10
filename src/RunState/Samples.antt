-- ===== src/RunState/Samples.antt =====
-- A run state with one stage and one work package, and the theorems at it.
use jarvis.Prelude.{◌+◌, ◌≡◌, refl, true, false, all, any, [], ◌∷◌, some, none, strip}
use jarvis.Result.{err, ok}
use jarvis.Json.{int, pos}
use jarvis.ContextBudget.{green}
use jarvis.RunState.{
  planning, running, partial, StageState, WorkPackageState, RunState, Library, is_concrete_action,
  is_run_id, is_commit, stage_valid, package_valid, state_valid,
}
use jarvis.RunState.Document.{is_one}
use jarvis.RunState.Decode.{
  set_status, to_dict, from_dict, evolve, new_state, is_managed, is_unknown, other_field,
}
use jarvis.RunState.Roundtrip.{from_dict-to_dict, evolve_lem, given, status_in, level_in, action_in}

-- A library that folds no text and takes every text for a time.
abbrev library : Library
library = record { folded = λ s. s; is_aware_time = λ s. true }

abbrev stage : StageState
stage = record {
  stage_id = "s1";
  objective = "Model";
  status = running;
  acceptance_criteria = "It checks" ∷ [];
  completed_work_packages = [];
}

abbrev work : WorkPackageState
work = record {
  work_package_id = "w1";
  objective = "Model the bus";
  status = partial;
  allowed_paths = [];
  forbidden_paths = [];
  dependencies = [];
  acceptance_commands = [];
  handoff_path = none;
  next_action = some "Prove it";
}

abbrev state : RunState
state = record {
  schema_version = int (pos 1);
  run_id = "run-20260102-030405-ab12";
  revision = 3;
  updated_at = "2026-01-02T03:04:05+00:00";
  goal = "A model";
  current_stage = "s1";
  status = running;
  base_commit = "0123456789abcdef0123456789abcdef01234567";
  active_branch = "main";
  context_level = green;
  next_action = "Prove it";
  next_command = none;
  stages = stage ∷ [];
  work_packages = work ∷ [];
  revision_floor = 3;
}

abbrev evolved : RunState
evolved = record state { revision = 4; updated_at = "now"; revision_floor = 4; status = planning }

stages_valid : all stage_valid state.stages ≡ true
unfolding stage_valid strip
stages_valid = refl

packages_valid : all (package_valid library) state.work_packages ≡ true
unfolding package_valid is_concrete_action strip
packages_valid = refl

is_valid : state_valid library is_one state ≡ true
unfolding state_valid is_concrete_action is_run_id is_commit strip
is_valid = refl

evolve_run : evolve library state "now" (set_status planning ∷ []) ≡ ok evolved
unfolding evolve state_valid is_concrete_action is_run_id is_commit strip
evolve_run = refl

evolve_managed : evolve library state "now" (other_field "revision" ∷ []) ≡ err "managed fields"
unfolding evolve
evolve_managed = refl

from_dict-to_dict_example : from_dict library (to_dict state) ≡ ok state
from_dict-to_dict_example = from_dict-to_dict library state stages_valid packages_valid is_valid

evolve_lem_example :
    (evolved.revision ≡ state.revision + 1)
    × (evolved.revision_floor ≡ evolved.revision)
    × (evolved.updated_at ≡ "now")
    × (state_valid library is_one evolved ≡ true)
    × (any is_managed (set_status planning ∷ []) ≡ false)
    × (any is_unknown (set_status planning ∷ []) ≡ false)
    × (evolved.status ≡ given status_in state.status (set_status planning ∷ []))
    × (evolved.context_level ≡ given level_in state.context_level (set_status planning ∷ []))
    × (evolved.next_action ≡ given action_in state.next_action (set_status planning ∷ []))
evolve_lem_example = evolve_lem library state evolved "now" (set_status planning ∷ []) evolve_run

new_state_run :
    new_state library "now" state.run_id "A model" "s1" state.base_commit "main" "Prove it" planning
      green none [] []
    ≡ ok (record state {
      revision = 1;
      updated_at = "now";
      status = planning;
      stages = [];
      work_packages = [];
      revision_floor = 1;
    })
unfolding new_state state_valid is_concrete_action is_run_id is_commit strip
new_state_run = refl

-- An action that names nothing is refused.
new_state_generic :
    new_state library "now" state.run_id "A model" "s1" state.base_commit "main" "continue" planning
      green none [] []
    ≡ err "run state"
unfolding new_state state_valid is_concrete_action is_run_id is_commit strip
new_state_generic = refl

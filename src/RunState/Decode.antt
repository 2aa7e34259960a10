-- ===== src/RunState/Decode.antt =====
-- `RunState.to_dict`, `from_dict` and `evolve`.
use jarvis.Prelude.{
  ℕ, ◌+◌, Bool, true, false, if◌then◌else◌, List, [], ◌∷◌, any, elem, Option, String,
}
use jarvis.Result.{Result, err, ok, ◌>>=◌}
use jarvis.Json.{pos, Value, Elements, obj, arr, str, int}
use jarvis.ContextBudget.{ContextLevel}
use jarvis.RunState.{
  RunStatus, StageState, WorkPackageState, RunState, Library, package_valid, state_valid,
}
use jarvis.RunState.Document.{
  status_value, level_value, is_one, or_null, dict, each, stage_to_dict, package_to_dict,
  expect_exact_fields, field, text, optional_text, text_array, parse_status, parse_level,
  parse_each, stage_from_dict,
}

unfoldable pub to_dict : RunState → Value
to_dict s = obj (
    dict (
      ("schema_version", s.schema_version)
      ∷ ("run_id", str s.run_id)
      ∷ ("revision", int (pos s.revision))
      ∷ ("updated_at", str s.updated_at)
      ∷ ("goal", str s.goal)
      ∷ ("current_stage", str s.current_stage)
      ∷ ("status", str (status_value s.status))
      ∷ ("base_commit", str s.base_commit)
      ∷ ("active_branch", str s.active_branch)
      ∷ ("context_level", str (level_value s.context_level))
      ∷ ("next_action", str s.next_action)
      ∷ ("next_command", or_null s.next_command)
      ∷ ("stages", arr (each stage_to_dict s.stages))
      ∷ ("work_packages", arr (each package_to_dict s.work_packages))
      ∷ []))

-- A revision: an int that is no bool; what is negative is below 1 as well.
abbrev pub revision_of : Value → Result {0, 0} String ℕ
revision_of (int (pos n)) = ok n
revision_of _ = err "revision"

-- `_json_array`.
abbrev pub json_array : Value → Result {0, 0} String Elements
json_array (arr elements) = ok elements
json_array _ = err "array"

-- A state that its `__post_init__` lets through. The times of the checks do not matter, since a
-- state is not seen before all are passed.
abbrev pub checked_state : Library → RunState → Result {0, 0} String RunState
checked_state l s = if state_valid l is_one s then ok s else err "run state"

-- A keyword argument of `evolve`: its name, and with it a value of the field's type. `other_field` is
-- any other name, whatever its value.
pub data Change : Type 0 where
  set_status : RunStatus → Change
  set_context_level : ContextLevel → Change
  set_run_id set_goal set_current_stage set_base_commit set_active_branch set_next_action :
      String → Change
  set_next_command : Option String → Change
  set_stages : List StageState → Change
  set_work_packages : List WorkPackageState → Change
  other_field : (name : String) → Change

-- The keyword.
abbrev pub keyword : Change → String
keyword (set_status v) = "status"
keyword (set_context_level v) = "context_level"
keyword (set_run_id v) = "run_id"
keyword (set_goal v) = "goal"
keyword (set_current_stage v) = "current_stage"
keyword (set_base_commit v) = "base_commit"
keyword (set_active_branch v) = "active_branch"
keyword (set_next_action v) = "next_action"
keyword (set_next_command v) = "next_command"
keyword (set_stages v) = "stages"
keyword (set_work_packages v) = "work_packages"
keyword (other_field name) = name

-- protected
abbrev pub protected_names : List String
protected_names = "schema_version" ∷ "revision" ∷ "updated_at" ∷ "_revision_floor" ∷ []

abbrev pub is_managed : Change → Bool
is_managed c = elem (keyword c) protected_names

-- A field of no RunState, for which `replace` raises a TypeError.
abbrev pub is_unknown : Change → Bool
is_unknown (other_field name) = true
is_unknown _ = false

abbrev pub apply : RunState → Change → RunState
apply s (other_field name) = s
apply s (set_status v) = record s { status = v }
apply s (set_context_level v) = record s { context_level = v }
apply s (set_run_id v) = record s { run_id = v }
apply s (set_base_commit v) = record s { base_commit = v }
apply s (set_goal v) = record s { goal = v }
apply s (set_current_stage v) = record s { current_stage = v }
apply s (set_active_branch v) = record s { active_branch = v }
apply s (set_next_action v) = record s { next_action = v }
apply s (set_next_command v) = record s { next_command = v }
apply s (set_stages v) = record s { stages = v }
apply s (set_work_packages v) = record s { work_packages = v }

-- replace(self, **changes)
abbrev pub apply_all : RunState → List Change → RunState
apply_all s [] = s
apply_all s (c ∷ changes) = apply_all (apply s c) changes

module _ (l : Library) where
  unfoldable pub package_from_dict : Value → Result {0, 0} String WorkPackageState
  package_from_dict v =
      expect_exact_fields v (
        "work_package_id" ∷ "objective" ∷ "status" ∷ "allowed_paths" ∷ "forbidden_paths"
        ∷ "dependencies" ∷ "acceptance_commands" ∷ "handoff_path" ∷ "next_action" ∷ [])
      >>= (λ raw. parse_status (field raw "status") >>= (λ status.
          text (field raw "work_package_id") >>= (λ work_package_id.
            text (field raw "objective") >>= (λ objective.
              text_array (field raw "allowed_paths") >>= (λ allowed.
                text_array (field raw "forbidden_paths") >>= (λ forbidden.
                  text_array (field raw "dependencies") >>= (λ dependencies.
                    text_array (field raw "acceptance_commands") >>= (λ commands.
                      optional_text (field raw "handoff_path") >>= (λ handoff.
                        optional_text (field raw "next_action") >>= (λ action.
                          let p : WorkPackageState = record {
                            work_package_id = work_package_id;
                            objective = objective;
                            status = status;
                            allowed_paths = allowed;
                            forbidden_paths = forbidden;
                            dependencies = dependencies;
                            acceptance_commands = commands;
                            handoff_path = handoff;
                            next_action = action;
                          } in
                          if package_valid l p then ok p else err "work_packages"))))))))))

  unfoldable pub from_dict : Value → Result {0, 0} String RunState
  from_dict v =
      expect_exact_fields v (
        "schema_version" ∷ "run_id" ∷ "revision" ∷ "updated_at" ∷ "goal" ∷ "current_stage"
        ∷ "status" ∷ "base_commit" ∷ "active_branch" ∷ "context_level" ∷ "next_action"
        ∷ "next_command" ∷ "stages" ∷ "work_packages" ∷ [])
      >>= (λ raw. json_array (field raw "stages") >>= (λ stage_items.
          parse_each stage_from_dict stage_items >>= (λ stages.
            json_array (field raw "work_packages") >>= (λ package_items.
              parse_each package_from_dict package_items >>= (λ packages.
                parse_status (field raw "status") >>= (λ status.
                  parse_level (field raw "context_level") >>= (λ level.
                    revision_of (field raw "revision") >>= (λ revision.
                      text (field raw "run_id") >>= (λ run_id.
                        text (field raw "updated_at") >>= (λ updated_at.
                          text (field raw "goal") >>= (λ goal.
                            text (field raw "current_stage") >>= (λ current_stage.
                              text (field raw "base_commit") >>= (λ base_commit.
                                text (field raw "active_branch") >>= (λ active_branch.
                                  text (field raw "next_action") >>= (λ action.
                                    optional_text (field raw "next_command") >>= (λ command.
                                      checked_state l (record {
                                        schema_version = field raw "schema_version";
                                        run_id = run_id;
                                        revision = revision;
                                        updated_at = updated_at;
                                        goal = goal;
                                        current_stage = current_stage;
                                        status = status;
                                        base_commit = base_commit;
                                        active_branch = active_branch;
                                        context_level = level;
                                        next_action = action;
                                        next_command = command;
                                        stages = stages;
                                        work_packages = packages;
                                        revision_floor = revision;
                                      })))))))))))))))))

  -- `RunState.new`; `now` is datetime.now(timezone.utc).isoformat().
  unfoldable pub new_state :
      (now run_id goal current_stage base_commit active_branch next_action : String)
      → RunStatus
      → ContextLevel
      → (next_command : Option String) → List StageState
      → List WorkPackageState
      → Result {0, 0} String RunState
  new_state now run_id goal current_stage base_commit active_branch next_action status level command
        stages packages =
      checked_state l (record {
        schema_version = int (pos 1);
        run_id = run_id;
        revision = 1;
        updated_at = now;
        goal = goal;
        current_stage = current_stage;
        status = status;
        base_commit = base_commit;
        active_branch = active_branch;
        context_level = level;
        next_action = next_action;
        next_command = command;
        stages = stages;
        work_packages = packages;
        revision_floor = 1;
      })

  -- `now` is as above.
  unfoldable pub evolve : RunState → (now : String) → List Change → Result {0, 0} String RunState
  evolve s now changes =
      if any is_managed changes
      then err "managed fields"
      else if any is_unknown changes
      then err "unexpected keyword"
      else checked_state l (record (apply_all s changes) {
        revision = s.revision + 1;
        updated_at = now;
        revision_floor = s.revision + 1;
      })

-- ===== src/RunState/Document.antt =====
-- The encoding of stages and work packages, and the decoding of stages.
use jarvis.Prelude.{
  Bool, false, ◌&&◌, if◌then◌else◌, ◌==◌, List, [], ◌∷◌, all, Option, some, none, String, str_eq,
  elem,
}
use jarvis.Result.{Result, err, ok, ◌>>=◌}
use jarvis.Json.{
  pos, Value, Elements, Members, obj, arr, str, int, float, bool, null, no_element, element,
  no_member, member, item, has_key,
}
use jarvis.ContextBudget.{ContextLevel, green, amber, orange, red}
use jarvis.RunState.{
  RunStatus, planning, running, verifying, blocked, completed, unknown, partial, StageState,
  WorkPackageState, stage_valid,
}

abbrev pub status_value : RunStatus → String
status_value planning = "planning"
status_value running = "running"
status_value verifying = "verifying"
status_value blocked = "blocked"
status_value completed = "completed"
status_value unknown = "unknown"
status_value partial = "partial"

abbrev pub level_value : ContextLevel → String
level_value green = "green"
level_value amber = "amber"
level_value orange = "orange"
level_value red = "red"

-- value == SCHEMA_VERSION
abbrev pub is_one : Value → Bool
is_one (int (pos n)) = n == 1
is_one (bool b) = b
is_one (float bits) = bits == 4607182418800017408
is_one _ = false

abbrev pub strings : List String → Elements
strings [] = no_element
strings (s ∷ ss) = element (str s) (strings ss)

abbrev pub or_null : Option String → Value
or_null none = null
or_null (some s) = str s

-- A dict literal.
abbrev pub dict : List (String × Value) → Members
dict [] = no_member
dict (i ∷ items) = member i.0 i.1 (dict items)

abbrev pub stage_to_dict : StageState → Value
stage_to_dict s = obj (
    dict (
      ("stage_id", str s.stage_id)
      ∷ ("objective", str s.objective)
      ∷ ("status", str (status_value s.status))
      ∷ ("acceptance_criteria", arr (strings s.acceptance_criteria))
      ∷ ("completed_work_packages", arr (strings s.completed_work_packages))
      ∷ []))

abbrev pub package_to_dict : WorkPackageState → Value
package_to_dict p = obj (
    dict (
      ("work_package_id", str p.work_package_id)
      ∷ ("objective", str p.objective)
      ∷ ("status", str (status_value p.status))
      ∷ ("allowed_paths", arr (strings p.allowed_paths))
      ∷ ("forbidden_paths", arr (strings p.forbidden_paths))
      ∷ ("dependencies", arr (strings p.dependencies))
      ∷ ("acceptance_commands", arr (strings p.acceptance_commands))
      ∷ ("handoff_path", or_null p.handoff_path)
      ∷ ("next_action", or_null p.next_action)
      ∷ []))

abbrev pub each {ℓ} : {A : Type ℓ} → (A → Value) → List A → Elements
each f [] = no_element
each f (x ∷ xs) = element (f x) (each f xs)

abbrev pub keys : Members → List String
keys no_member = []
keys (member key v members) = key ∷ keys members

-- `_expect_exact_fields`.
abbrev pub expect_exact_fields : Value → List String → Result {0, 0} String Members
expect_exact_fields (obj members) expected =
    if all (has_key members) expected && all (λ key. elem key expected) (keys members)
    then ok members
    else err "fields"
expect_exact_fields _ expected = err "fields"

-- raw[key], where the key is there.
abbrev pub field : Members → String → Value
field members key = elim (item members key) [ none ↦ null | some v ↦ v ]

abbrev pub text : Value → Result {0, 0} String String
text (str s) = ok s
text _ = err "text"

abbrev pub optional_text : Value → Result {0, 0} String (Option String)
optional_text null = ok none
optional_text (str s) = ok (some s)
optional_text _ = err "text"

abbrev pub texts : Elements → Result {0, 0} String (List String)
texts no_element = ok []
texts (element v elements) = text v >>= (λ s. texts elements >>= (λ ss. ok (s ∷ ss)))

-- `_json_array`, and `_string_tuple` of it.
abbrev pub text_array : Value → Result {0, 0} String (List String)
text_array (arr elements) = texts elements
text_array _ = err "array"

-- RunStatus(value)
abbrev pub parse_status : Value → Result {0, 0} String RunStatus
parse_status (str s) =
    if str_eq s "planning"
    then ok planning
    else if str_eq s "running"
    then ok running
    else if str_eq s "verifying"
    then ok verifying
    else if str_eq s "blocked"
    then ok blocked
    else if str_eq s "completed"
    then ok completed
    else if str_eq s "unknown"
    then ok unknown
    else if str_eq s "partial"
    then ok partial
    else err "status"
parse_status _ = err "status"

-- ContextLevel(value)
abbrev pub parse_level : Value → Result {0, 0} String ContextLevel
parse_level (str s) =
    if str_eq s "green"
    then ok green
    else if str_eq s "amber"
    then ok amber
    else if str_eq s "orange"
    then ok orange
    else if str_eq s "red"
    then ok red
    else err "context_level"
parse_level _ = err "context_level"

-- The loop over an array of objects.
abbrev pub parse_each {ℓ} :
    {A : Type ℓ} → (Value → Result {0, ℓ} String A) → Elements → Result {0, ℓ} String (List A)
parse_each f no_element = ok []
parse_each f (element v elements) = f v >>= (λ x. parse_each f elements >>= (λ xs. ok (x ∷ xs)))

unfoldable pub stage_from_dict : Value → Result {0, 0} String StageState
stage_from_dict v =
    expect_exact_fields v
      ("stage_id" ∷ "objective" ∷ "status" ∷ "acceptance_criteria" ∷ "completed_work_packages" ∷ [])
    >>= (λ raw. parse_status (field raw "status") >>= (λ status.
        text (field raw "stage_id") >>= (λ stage_id. text (field raw "objective") >>= (λ objective.
          text_array (field raw "acceptance_criteria") >>= (λ criteria.
            text_array (field raw "completed_work_packages") >>= (λ packages.
              let stage : StageState = record {
                stage_id = stage_id;
                objective = objective;
                status = status;
                acceptance_criteria = criteria;
                completed_work_packages = packages;
              } in
              if stage_valid stage then ok stage else err "stages"))))))

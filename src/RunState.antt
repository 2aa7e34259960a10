-- ===== src/RunState.antt =====
-- src/core/contracts/run_state.py: the state of a run, its checks, and its decoded JSON document.
-- An `err` stands for a ValueError, with the field that its message names.
pub mod Document
pub mod Decode
pub mod Roundtrip
mod Samples
use jarvis.Prelude.{
  ℕ, ◌+◌, ◌≡◌, Bool, true, false, not, ◌&&◌, ◌||◌, if◌then◌else◌, leb, ltb, ◌==◌, List, [], ◌∷◌,
  map, all, any, Option, some, none, String, str_eq, strip, elem, codes, length, take, drop,
}
use jarvis.Result.{Result, err, ok}
use jarvis.Json.{Value}
use jarvis.ContextBudget.{ContextLevel}

pub data RunStatus : Type 0 where
  planning running verifying blocked completed unknown partial : RunStatus

pub record StageState : Type 0 where
  pub stage_id : String
  pub objective : String
  pub status : RunStatus
  pub acceptance_criteria : List String
  pub completed_work_packages : List String

pub record WorkPackageState : Type 0 where
  pub work_package_id : String
  pub objective : String
  pub status : RunStatus
  pub allowed_paths : List String
  pub forbidden_paths : List String
  pub dependencies : List String
  pub acceptance_commands : List String
  pub handoff_path : Option String
  pub next_action : Option String

-- `schema_version` is compared with 1 by `!=`, so it may be any value that equals it.
pub record RunState : Type 0 where
  pub schema_version : Value
  pub run_id : String
  pub revision : ℕ
  pub updated_at : String
  pub goal : String
  pub current_stage : String
  pub status : RunStatus
  pub base_commit : String
  pub active_branch : String
  pub context_level : ContextLevel
  pub next_action : String
  pub next_command : Option String
  pub stages : List StageState
  pub work_packages : List WorkPackageState
  pub revision_floor : ℕ

-- What the checks use of the standard library: " ".join(s.split()).casefold(), and whether
-- datetime.fromisoformat reads a text, its "Z" replaced, as a time with a zone.
pub record Library : Type 0 where
  pub folded : String → String
  pub is_aware_time : String → Bool

-- `_non_empty` of a text.
abbrev pub non_empty : String → Bool
non_empty s = not (str_eq (strip s) "")

abbrev pub optional : (String → Bool) → Option String → Bool
optional p none = true
optional p (some s) = p s

abbrev is_digit : ℕ → Bool
is_digit c = leb 48 c && leb c 57

abbrev is_hex : ℕ → Bool
is_hex c = is_digit c || leb 97 c && leb c 102

abbrev is_token : ℕ → Bool
is_token c = is_digit c || leb 97 c && leb c 122

-- The pattern `_COMMIT`.
unfoldable pub is_commit : String → Bool
is_commit s = (length (codes s) == 40) && all is_hex (codes s)

-- The end of the pattern `_RUN_ID`: nothing, or a dash and 4 to 12 letters or digits.
abbrev is_suffix : List ℕ → Bool
is_suffix [] = true
is_suffix (c ∷ cs) = (c == 45) && leb 4 (length cs) && leb (length cs) 12 && all is_token cs

abbrev same_codes : List ℕ → List ℕ → Bool
same_codes [] [] = true
same_codes (a ∷ xs) (b ∷ ys) = (a == b) && same_codes xs ys
same_codes _ _ = false

-- The pattern `_RUN_ID`.
unfoldable pub is_run_id : String → Bool
is_run_id s =
    let cs = codes s in
    leb 19 (length cs)
    && same_codes (take 4 cs) (codes "run-")
    && all is_digit (take 8 (drop 4 cs))
    && same_codes (take 1 (drop 12 cs)) (codes "-")
    && all is_digit (take 6 (drop 13 cs))
    && is_suffix (drop 19 cs)

abbrev pub unique : List String → Bool
unique [] = true
unique (x ∷ xs) = not (elem x xs) && unique xs

-- `StageState.__post_init__`.
unfoldable pub stage_valid : StageState → Bool
stage_valid s =
    non_empty s.stage_id
    && non_empty s.objective
    && all non_empty s.acceptance_criteria
    && all non_empty s.completed_work_packages

module _ (l : Library) where
  open l use {folded, is_aware_time}

  -- `_validate_next_action`.
  unfoldable pub is_concrete_action : String → Bool
  is_concrete_action s =
      non_empty s
      && not (elem (folded s) ("continue" ∷ "continue development" ∷ "继续" ∷ "继续开发" ∷ []))

  -- `WorkPackageState.__post_init__`.
  unfoldable pub package_valid : WorkPackageState → Bool
  package_valid p =
      non_empty p.work_package_id
      && non_empty p.objective
      && all non_empty p.allowed_paths
      && all non_empty p.forbidden_paths
      && all non_empty p.dependencies
      && all non_empty p.acceptance_commands
      && optional non_empty p.handoff_path
      && optional is_concrete_action p.next_action

  -- `RunState.__post_init__` of values of the right types; `is_one` tells whether the schema version
  -- equals 1.
  unfoldable pub state_valid : (is_one : Value → Bool) → RunState → Bool
  state_valid is_one s =
      is_one s.schema_version
      && leb 1 s.revision
      && leb s.revision_floor s.revision
      && leb 1 s.revision_floor
      && is_run_id s.run_id
      && non_empty s.goal
      && non_empty s.current_stage
      && is_commit s.base_commit
      && non_empty s.active_branch
      && is_concrete_action s.next_action
      && optional non_empty s.next_command
      && unique (map (λ s. s.stage_id) s.stages)
      && unique (map (λ p. p.work_package_id) s.work_packages)
      && is_aware_time s.updated_at

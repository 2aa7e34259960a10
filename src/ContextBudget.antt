-- ===== src/ContextBudget.antt =====
-- src/core/contracts/context_budget.py and src/core/brain/context_budget.py: snapshots of the
-- context's use, their provider, and the monitor of the watermarks.
pub mod Provider
pub mod Monitor
mod Samples
use jarvis.Prelude.{
  ℕ, ◌≤◌, Bool, true, false, not, ◌&&◌, ◌||◌, if◌then◌else◌, leb, ltb, ◌≡◌, Option, some, none,
  String, strip, str_eq,
}
use jarvis.Json.{Value, int, pos, str}

-- `ContextLevel` of src/core/contracts/run_state.py.
pub data ContextLevel : Type 0 where
  green amber orange red : ContextLevel

pub record Snapshot : Type 0 where
  pub used_tokens : ℕ
  pub total_tokens : ℕ
  pub source : String

-- `ContextBudgetSnapshot.__post_init__`; `none` is its ValueError.
unfoldable pub new_snapshot : Value → Value → Value → Option Snapshot
unfolding strip
new_snapshot (int (pos used)) (int (pos total)) (str source) =
    if leb total 0
    then none
    else if ltb total used
    then none
    else if str_eq (strip source) ""
    then none
    else some (record { used_tokens = used; total_tokens = total; source = source })
new_snapshot _ _ _ = none

pub record WatermarkChanged : Type 0 where
  pub previous : ContextLevel
  pub current : ContextLevel
  pub snapshot : Snapshot

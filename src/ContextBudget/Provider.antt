-- ===== src/ContextBudget/Provider.antt =====
-- `FallbackContextBudgetProvider`: a reading of the runtime, or else an estimate.
use jarvis.Prelude.{
  ℕ, ◌<◌, ◌≡◌, Bool, true, false, not, ◌&&◌, if◌then◌else◌, leb, ltb, Option, some, none, min,
  arith,
}
use jarvis.Json.{Value, int, pos, negsuc, str}
use jarvis.ContextBudget.{Snapshot, new_snapshot}

-- What the runtime reader does: it raises, or returns a pair or something else.
pub data Reading : Type 0 where
  raised other : Reading
  pair : Value → Value → Reading

pub record Provider : Type 0 where
  pub total_tokens : Value
  pub runtime_reader : Option Reading
  pub estimate : Value

unfoldable pub is_token_count : Value → (positive : Bool) → Bool
is_token_count (int (pos n)) true = leb 1 n
is_token_count (int (pos n)) false = true
is_token_count _ _ = false

-- `used_tokens > total_tokens` of two token counts.
abbrev exceeds : Value → Value → Bool
exceeds (int (pos used)) (int (pos total)) = ltb total used
exceeds _ _ = false

unfoldable pub read_runtime : Option Reading → Option (Value × Value)
unfolding is_token_count
read_runtime (some (pair used total)) =
    if not (is_token_count total true)
    then none
    else if not (is_token_count used false)
    then none
    else if exceeds used total
    then none
    else some (used, total)
read_runtime _ = none

-- `min(used_tokens, self._total_tokens)` of two token counts.
abbrev at_most : Value → Value → Value
at_most (int (pos used)) (int (pos total)) = int (pos (min used total))
at_most used total = used

unfoldable pub estimated : Value → Value → Option Snapshot
unfolding is_token_count
estimated total used =
    if not (is_token_count used false)
    then none
    else new_snapshot (at_most used total) total (str "estimate")

-- `none` is a ValueError.
unfoldable pub snapshot : Provider → Option Snapshot
unfolding is_token_count read_runtime new_snapshot
snapshot p =
    if not (is_token_count p.total_tokens true)
    then none
    else elim (read_runtime p.runtime_reader) [
      | some (used, total) ↦ new_snapshot used total (str "runtime")
      | none ↦ estimated p.total_tokens p.estimate
    ]

-- What a provider is meant to answer: a reading of two token counts, the total positive and not
-- exceeded, or else the estimate, cut at the configured total.
abbrev pub intended : Option Reading → (configured estimate : ℕ) → Snapshot
intended (some (pair (int (pos used)) (int (pos total)))) configured estimate =
    if ltb 0 total && leb used total
    then record { used_tokens = used; total_tokens = total; source = "runtime" }
    else record {
      used_tokens = min estimate configured;
      total_tokens = configured;
      source = "estimate";
    }
intended _ configured estimate = record {
  used_tokens = min estimate configured;
  total_tokens = configured;
  source = "estimate";
}

by_estimate :
    (configured estimate : ℕ)
    → 0 < configured
    → estimated (int (pos configured)) (int (pos estimate))
      ≡ some (record {
        used_tokens = min estimate configured;
        total_tokens = configured;
        source = "estimate";
      })
unfolding estimated new_snapshot
by_estimate configured estimate h = ground arith

-- With a positive total and an estimate that is a token count the provider answers, whatever the
-- runtime reader does: a usable reading as it is, and the estimate cut at the total if there is
-- none.
pub snapshot_lem :
    (reader : Option Reading) (configured estimate : ℕ)
    → 0 < configured
    → snapshot (record {
      total_tokens = int (pos configured);
      runtime_reader = reader;
      estimate = int (pos estimate);
    })
      ≡ some (intended reader configured estimate)
unfolding snapshot
snapshot_lem none c e h = ground (arith, by_estimate c e h)
snapshot_lem (some (pair (int (pos u)) (int (pos t)))) c e h = ground (arith, by_estimate c e h)
snapshot_lem (some (pair (int (negsuc u)) (int (pos t)))) c e h = ground (arith, by_estimate c e h)
snapshot_lem (some (pair u (int (negsuc t)))) c e h = ground (arith, by_estimate c e h)
snapshot_lem (some r) c e h = ground (arith, by_estimate c e h)

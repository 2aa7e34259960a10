-- ===== src/ContextBudget/Samples.antt =====
-- A provider and a monitor, and the theorems at them. A float is a number of thousandths here.
use jarvis.Prelude.{ℕ, ◌≤◌, ◌<◌, ◌*◌, ◌/◌, ◌≡◌, refl, true, leb, ltb, [], ◌∷◌, some, none, arith}
use jarvis.Json.{int, pos}
use jarvis.ContextBudget.{Snapshot, green, red}
use jarvis.ContextBudget.Provider.{raised, pair, Provider, snapshot, snapshot_lem}
use jarvis.ContextBudget.Monitor.{
  Floats, Monitor, level_for, observe, observe_all, new_monitor, Leads, observe_all-Leads,
}

leb_trans : (a b c : ℕ) → leb a b ≡ true → leb b c ≡ true → leb a c ≡ true
leb_trans a b c h k = ground arith

thousandths_mono :
    (a b total : ℕ) → a ≤ b → 0 < total → leb (a * 1000 / total) (b * 1000 / total) ≡ true
thousandths_mono a b total h positive =
    let rises : a * 1000 / total ≤ b * 1000 / total = grind arith in ground arith

abbrev thousandths : Floats
thousandths = record {
  Float = ℕ;
  zero_float = 0;
  one_float = 1000;
  divide = λ a b. a * 1000 / b;
  lt_float = ltb;
  le_float = leb;
  le_float_trans = leb_trans;
  divide_mono = thousandths_mono;
}

abbrev monitor : Monitor thousandths
monitor = record { at_amber = 600; at_orange = 750; at_red = 850; current = green }

new_monitor_example : new_monitor thousandths 600 750 850 ≡ some monitor
unfolding new_monitor
new_monitor_example = refl

new_monitor_refused : new_monitor thousandths 600 750 1001 ≡ none
unfolding new_monitor
new_monitor_refused = refl

abbrev used : ℕ → Snapshot
used n = record { used_tokens = n; total_tokens = 100; source = "runtime" }

observe_all_run :
    (observe_all thousandths monitor (used 10 ∷ used 60 ∷ used 61 ∷ used 90 ∷ [])).0.current ≡ red
unfolding observe level_for
observe_all_run = refl

observe_all-Leads_example :
    Leads green
      (observe_all thousandths monitor (used 10 ∷ used 60 ∷ used 90 ∷ [])).1
      (observe_all thousandths monitor (used 10 ∷ used 60 ∷ used 90 ∷ [])).0.current
observe_all-Leads_example = observe_all-Leads thousandths monitor (used 10 ∷ used 60 ∷ used 90 ∷ [])

abbrev provider : Provider
provider = record {
  total_tokens = int (pos 100);
  runtime_reader = some (pair (int (pos 7)) (int (pos 50)));
  estimate = int (pos 300);
}

abbrev reading : Snapshot
reading = record { used_tokens = 7; total_tokens = 50; source = "runtime" }

snapshot_lem_example : snapshot provider ≡ some reading
snapshot_lem_example = snapshot_lem (some (pair (int (pos 7)) (int (pos 50)))) 100 300 (omega arith)

-- A reader that raises: the estimate, cut at the configured total.
snapshot_estimate :
    snapshot (record provider { runtime_reader = some raised })
    ≡ some (record { used_tokens = 100; total_tokens = 100; source = "estimate" })
snapshot_estimate = snapshot_lem (some raised) 100 300 (omega arith)

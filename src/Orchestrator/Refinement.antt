-- ===== src/Orchestrator/Refinement.antt =====
-- The end of a dispatch in the table, against the steps of the one agent that it holds.
use jarvis.Prelude.{ℕ, suc, ◌≡◌, Bool, if◌then◌else◌, false, List, String}
use jarvis.Orchestrator.Agent.{Agent, Probe}
use jarvis.Orchestrator.Exclusion.{Config, Step}
use jarvis.Orchestrator.Table.{Orchestrator, on_agent}
use jarvis.Orchestrator.Outcome.{Outcome, Leaves, is_late}

-- Steps of one agent, one after the other.
pub data Steps : Config → Config → Type 0 where
  stop : {c : Config} → Steps c c
  step : {c d e : Config} → Step c d → Steps d e → Steps c e

-- The agent that the dispatch holds is left as the outcome demands, and no other agent changes. Unless
-- the dispatch ends it twice, it goes through steps that end the dispatch.
abbrev pub Implements : Probe → Outcome → (held : Bool) → List Agent → String → List Agent → Type 0
Implements p outcome held before name after =
    (method : Agent → Agent) × (after ≡ (if held then on_agent method before name else before))
    × ((a : Agent) → Leaves p outcome a (method a))
    × (is_late outcome ≡ false
        → (a : Agent) (n : ℕ)
        → Steps (record { agent = a; executing = suc n })
            (record { agent = method a; executing = n }))

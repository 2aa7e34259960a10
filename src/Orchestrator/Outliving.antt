-- ===== src/Orchestrator/Outliving.antt =====
-- An agent together with the threads and the worker that go on running after a timeout.
use jarvis.Prelude.{
  ℕ, ◌≤◌, ◌≡◌, ◌∙◌, inl, inr, refl, Bool, true, false, Bool-cases, not, ◌&&◌, ◌||◌, ◌==◌, List,
  none, some, String, arith,
}
use jarvis.Orchestrator.Agent.{
  AgentTask, Agent, Probe, new_agent, reap, try_assign, complete, release_assignment, fail, reset,
  recover_from_error, quarantine, quarantine_declared_worker, shutdown_agent,
}
use jarvis.Orchestrator.Exclusion.{
  Config, Step, tries, ends, resets, recovers, observes, shuts_down, completed, released, failed,
  left_thread, left_worker, Reach, registered, next, IsValid, Reach-IsValid,
}

-- The handlers' threads that go on running after their dispatch has ended, and whether such a worker does.
pub record Left : Type 0 where
  pub runs : ℕ → Bool
  pub worker_runs : Bool

-- A probe that finds alive what goes on running.
abbrev pub Sees : Probe → Left → Type 0
Sees p left =
    ((thread : ℕ) → left.runs thread ≡ true → p.is_alive thread ≡ true)
    × (left.worker_runs ≡ true → p.worker_pending ≡ true)

-- The probe of a step sees it, and a worker that is left is a declared one.
abbrev pub Agrees : {c d : Config} → Step c d → Left → Type 0
Agrees (tries p task a n) left = Sees p left
Agrees (ends (left_thread p thread) a n) left = Sees p left
Agrees (ends (left_worker p) a n) left = Sees p left × (a.declared_worker ≡ true)
Agrees (ends completed a n) left = Unit
Agrees (ends released a n) left = Unit
Agrees (ends (failed recoverable) a n) left = Unit
Agrees (resets p a n) left = Sees p left
Agrees (recovers p a n) left = Sees p left
Agrees (observes p a n) left = Sees p left
Agrees (shuts_down a n) left = Unit

-- A dispatch that ends with a timeout leaves its thread or its worker.
abbrev pub left_after : {c d : Config} → Step c d → Left → Left
left_after (ends (left_thread p thread) a n) left = record left {
  runs = λ other. other == thread || left.runs other;
}
left_after (ends (left_worker p) a n) left = record left { worker_runs = true }
left_after (ends completed a n) left = left
left_after (ends released a n) left = left
left_after (ends (failed recoverable) a n) left = left
left_after (tries p task a n) left = left
left_after (resets p a n) left = left
left_after (recovers p a n) left = left
left_after (observes p a n) left = left
left_after (shuts_down a n) left = left

-- An agent from its registration on, with what is left to run; that ends whenever it does.
pub data Run (name : String) (declared : Bool) (capabilities : List String)
    : Config → Left → Type 0 where
  start :
      Run name declared capabilities
        (record { agent = new_agent name declared capabilities; executing = 0 })
        (record { runs = λ thread. false; worker_runs = false })
  move :
      {c d : Config} {left : Left}
      → Run name declared capabilities c left
      → (step : Step c d) → Agrees step left
      → Run name declared capabilities d (left_after step left)
  thread_ends :
      {c : Config} {left : Left}
      → Run name declared capabilities c left
      → (thread : ℕ)
      → Run name declared capabilities c
          (record left { runs = λ other. not (other == thread) && left.runs other })
  worker_ends :
      {c : Config} {left : Left}
      → Run name declared capabilities c left
      → Run name declared capabilities c (record left { worker_runs = false })

pub Run-Reach :
    {name : String} {declared : Bool} {capabilities : List String} {c : Config} {left : Left}
    → Run name declared capabilities c left
    → Reach name declared capabilities c
Run-Reach start = registered
Run-Reach (move r step agrees) = next (Run-Reach r) step
Run-Reach (thread_ends r thread) = Run-Reach r
Run-Reach (worker_ends r) = Run-Reach r

-- What is left to run is pending on the agent.
abbrev pub IsPending : Agent → Left → Type 0
IsPending a left =
    ((thread : ℕ) → left.runs thread ≡ true → a.pending_thread ≡ some thread)
    × (left.worker_runs ≡ true → (a.pending_declared_worker ≡ true) × (a.declared_worker ≡ true))

reap-IsPending :
    (p : Probe) (a : Agent) (left : Left)
    → Sees p left
    → IsPending a left
    → IsPending (reap p a) left
unfolding reap
reap-IsPending p a left sees pending = (
  λ thread runs. ground (arith, sees.0 thread runs, pending.0 thread runs),
  λ runs.
      (ground (arith, sees.1 runs, pending.1 runs), ground (arith, sees.1 runs, pending.1 runs)),
)

reap-declared : (p : Probe) (a : Agent) → (reap p a).declared_worker ≡ a.declared_worker
unfolding reap
reap-declared p a = ground arith

move-IsPending :
    {c d : Config} (left : Left) (step : Step c d)
    → Agrees step left
    → IsValid c
    → IsPending c.agent left
    → IsPending d.agent (left_after step left)
unfolding try_assign complete release_assignment fail reset recover_from_error quarantine
    quarantine_declared_worker shutdown_agent
move-IsPending left (tries p task a n) sees valid pending =
    let (threads, worker) = reap-IsPending p a left sees pending in
    (
      λ thread runs. ground (arith, threads thread runs),
      λ runs. (ground (arith, worker runs), ground (arith, worker runs)),
    )
move-IsPending left (resets p a n) sees valid pending =
    let (threads, worker) = reap-IsPending p a left sees pending in
    (
      λ thread runs. ground (arith, threads thread runs),
      λ runs. (ground (arith, worker runs), ground (arith, worker runs)),
    )
move-IsPending left (recovers p a n) sees valid pending =
    let (threads, worker) = reap-IsPending p a left sees pending in
    (
      λ thread runs. ground (arith, threads thread runs),
      λ runs. (ground (arith, worker runs), ground (arith, worker runs)),
    )
move-IsPending left (observes p a n) sees valid pending = reap-IsPending p a left sees pending
move-IsPending left (shuts_down a n) sees valid pending = pending
move-IsPending left (ends completed a n) sees valid pending = pending
move-IsPending left (ends released a n) sees valid pending = pending
move-IsPending left (ends (failed recoverable) a n) sees valid pending = pending
move-IsPending left (ends (left_thread p thread) a n) sees valid pending =
    let (threads, worker) = reap-IsPending p a left sees pending in
    (
      λ other runs.
          let free : a.pending_thread ≡ none = ground (arith, valid) in
          elim (Bool-cases (other == thread)) [
            | inl same ↦ ground (arith, same)
            | inr new ↦ absurd (ground (arith, new, runs, free, pending.0 other))
          ],
      worker,
    )
move-IsPending left (ends (left_worker p) a n) (sees, declared) valid pending =
    let (threads, worker) = reap-IsPending p a left sees pending in
    (threads, λ runs. (refl, reap-declared p a ∙ declared))

pub Run-IsPending :
    {name : String} {declared : Bool} {capabilities : List String} {c : Config} {left : Left}
    → Run name declared capabilities c left
    → IsPending c.agent left
Run-IsPending start = (λ thread h. absurd (ground (arith, h)), λ h. absurd (ground (arith, h)))
Run-IsPending (move {left = left} r step agrees) =
    move-IsPending left step agrees (Reach-IsValid (Run-Reach r)) (Run-IsPending r)
Run-IsPending (thread_ends r thread) =
    let (threads, worker) = Run-IsPending r in
    (λ other runs. threads other (ground (arith, runs)), worker)
Run-IsPending (worker_ends r) =
    let (threads, worker) = Run-IsPending r in (threads, λ h. absurd (ground (arith, h)))

-- Whatever the threads do, in whatever order, an agent has at most one dispatch at a time, and while it
-- has one no other is assigned to it. Nor is one while a handler's thread or a declared worker that a
-- timed-out dispatch left behind still runs. (A result that cannot be copied is not among the ends
-- of a dispatch here.)
pub exclusive :
    {name : String} {declared : Bool} {capabilities : List String} {c : Config} {left : Left}
    (r : Run name declared capabilities c left) (p : Probe) (task : AgentTask)
    → Sees p left
    → (c.executing ≤ 1)
      × (c.executing ≡ 1 → (try_assign p c.agent task).1 ≡ false)
      × ((thread : ℕ) → left.runs thread ≡ true → (try_assign p c.agent task).1 ≡ false)
      × (left.worker_runs ≡ true → (try_assign p c.agent task).1 ≡ false)
unfolding try_assign reap
exclusive {c = c} {left = left} r p task sees =
    let valid = Reach-IsValid (Run-Reach r) in
    let (threads, worker) = Run-IsPending r in
    (
      ground (arith, valid),
      λ one. ground (arith, valid, one),
      λ thread runs. ground (arith, valid, threads thread runs, sees.0 thread runs),
      λ runs. ground (arith, valid, worker runs, sees.1 runs),
    )

-- ===== src/RoleToolLoop/Budget.antt =====
-- The loop ends, within its budget.
use jarvis.Prelude.{
  ℕ, zero, suc, ◌+◌, ◌≤◌, ◌<◌, ◌≡◌, ◌≢◌, refl, ap, Bool, true, false, Bool-cases, if◌then◌else◌,
  ltb, is_empty, length, List, [], ◌∷◌, ◌++◌, Option, some, none, String, str_eq, strip, inl, inr,
  arith,
}
use mathlib.Core.Path.{subst}
use jarvis.Json.{Value, obj, item}
use jarvis.Result.{Result, ok, err}
use jarvis.RoleTools.Broker.{
  RoleToolBudget, RoleToolBroker, RoleToolCall, RoleToolResult, RoleToolDefinition,
}
use jarvis.RoleTools.Calls.{from_ollama}
use jarvis.RoleToolLoop.Parse.{
  LoopError, Turn, is_text, parse_assistant, parse_calls, add_call, tool_message, assistant_message,
}
use jarvis.RoleToolLoop.Invocation.{authorized_definitions}
use jarvis.RoleToolLoop.Rounds.{
  Env, LoopState, RoundEnd, answered, failed, goes_on, Request, look, invoke_tool, accept_result,
  execute_call, unless_raised, unless_ended, execute_calls, end_of, execute_parsed, end_turn,
  run_turn, hear, respond, run_round, run_rounds, run,
}

-- The messages of tools in a history.
abbrev is_tool_message : Value → Bool
is_tool_message (obj members) = is_text (item members "role") "tool"
is_tool_message _ = false

abbrev pub tool_messages : List Value → ℕ
tool_messages [] = 0
tool_messages (m ∷ messages) = (if is_tool_message m then 1 else 0) + tool_messages messages

tool_messages-snoc :
    (messages : List Value) (m : Value)
    → tool_messages (messages ++ m ∷ [])
      ≡ tool_messages messages + (if is_tool_message m then 1 else 0)
tool_messages-snoc [] m = omega arith
tool_messages-snoc (n ∷ messages) m = omega (arith, tool_messages-snoc messages m)

abbrev HasLength : ℕ → Option (List RoleToolCall) → Type 0
HasLength n none = Unit
HasLength n (some calls) = length calls ≡ n

add_call-HasLength :
    (n : ℕ) (call : Option RoleToolCall) (calls : Option (List RoleToolCall))
    → HasLength n calls
    → HasLength (suc n) (add_call call calls)
add_call-HasLength n none none h = tt
add_call-HasLength n none (some calls) h = tt
add_call-HasLength n (some call) none h = tt
add_call-HasLength n (some call) (some calls) h = ap suc h

parse_calls-HasLength :
    (loads : String → Option Value) (round_index call_index : ℕ) (raw : List Value)
    → HasLength (length raw) (parse_calls loads round_index call_index raw)
parse_calls-HasLength loads round_index call_index [] = refl
parse_calls-HasLength loads round_index call_index (r ∷ raw) =
    add_call-HasLength (length raw) (from_ollama loads r round_index call_index)
      (parse_calls loads round_index (suc call_index) raw)
      (parse_calls-HasLength loads round_index (suc call_index) raw)

length-pos : (xs : List Value) → is_empty xs ≡ false → 0 < length xs
length-pos [] h = absurd cc
length-pos (x ∷ xs) h = omega arith

module _ {World : Type 0} (e : Env World) (r : Request) where
  -- Calls were made: each is counted, and leaves one message of a tool if it does not raise.
  abbrev Settled : LoopState World → ℕ → LoopState World → Option LoopError → Type 0
  Settled s n t (some raised) = Unit
  Settled s n t none =
      (t.calls_used ≡ s.calls_used + n)
      × (s.result_bytes_used ≤ r.budget.max_total_result_bytes
          → t.result_bytes_used ≤ r.budget.max_total_result_bytes)

  abbrev Made : LoopState World → ℕ → LoopState World × Option LoopError → Type 0
  Made s n end =
      (tool_messages end.0.history + s.calls_used ≤ tool_messages s.history + end.0.calls_used)
      × (end.0.calls_used ≤ s.calls_used + n)
      × (s.calls_used ≤ end.0.calls_used)
      × Settled s n end.0 end.1

  accept_result-Made :
      (s : LoopState World) (call : RoleToolCall) (result : RoleToolResult)
      (start : LoopState World)
      → s.calls_used ≡ start.calls_used + 1
      → s.history ≡ start.history
      → Made start 1 (accept_result e r s call result)
  accept_result-Made s call result start one same =
      let bytes = s.result_bytes_used + result.byte_size in
      let added = tool_messages-snoc s.history (tool_message call result) in
      let before = ap tool_messages same in
      elim (Bool-cases (ltb r.budget.max_result_bytes result.byte_size)) [
        | inl large ↦
            rw large (omega (arith, one, before), omega (arith, one), omega (arith, one), tt)
        | inr fits ↦ elim (Bool-cases (ltb r.budget.max_total_result_bytes bytes)) [
          | inl much ↦
              rw (fits, much)
                (omega (arith, one, before), omega (arith, one), omega (arith, one), tt)
          | inr within ↦ elim (Bool-cases (e.is_late s.looks)) [
            | inl late ↦
                rw (fits, within, late)
                  (omega (arith, one, before), omega (arith, one), omega (arith, one), tt)
            | inr early ↦
                rw (fits, within, early)
                  (
                    omega (arith, one, before, added),
                    omega (arith, one),
                    omega (arith, one),
                    (one, λ h. ground (arith, within)),
                  )
          ]
        ]
      ]

  execute_call-Made :
      (s : LoopState World) (call : RoleToolCall) → Made s 1 (execute_call e r s call)
  unfolding execute_call invoke_tool
  execute_call-Made s call =
      let (looked, late) = look e (record s { calls_used = s.calls_used + 1 }) in
      let (called, result) = invoke_tool e r.profile looked call in
      elim (Bool-cases (e.is_late s.looks)) [
        | inl is_late ↦ rw is_late (omega arith, omega arith, omega arith, tt)
        | inr early ↦ rw early (accept_result-Made called call result s refl refl)
      ]

  -- One call, then the others unless it raises.
  both-Made :
      (s t : LoopState World) (n : ℕ) (raised : Option LoopError)
      (rest : LoopState World × Option LoopError)
      → Made s 1 (t, raised)
      → Made t n rest
      → Made s (suc n) (unless_raised t raised rest)
  both-Made s t n (some x) rest (a, b, c, d) h = (a, omega (arith, b), c, tt)
  both-Made s t n none (u, none) (a, b, c, (d, f)) (h, k, l, (m, o)) = (
    omega (arith, a, h),
    omega (arith, b, k),
    omega (arith, c, l),
    (omega (arith, d, m), λ g. o (f g)),
  )
  both-Made s t n none (u, some x) (a, b, c, (d, f)) (h, k, l, m) =
      (omega (arith, a, h), omega (arith, b, k), omega (arith, c, l), tt)

  execute_calls-Made :
      (s : LoopState World) (calls : List RoleToolCall)
      → Made s (length calls) (execute_calls e r s calls)
  unfolding execute_calls
  execute_calls-Made s [] = (omega arith, omega arith, omega arith, (omega arith, λ h. h))
  execute_calls-Made s (call ∷ calls) =
      let one = execute_call e r s call in
      both-Made s one.0 (length calls) one.1 (execute_calls e r one.0 calls)
        (execute_call-Made s call) (execute_calls-Made one.0 calls)

  -- A round ended: the calls stay within the budget, and one is made if the loop goes on.
  abbrev Bytes : LoopState World → Type 0
  Bytes s = s.result_bytes_used ≤ r.budget.max_total_result_bytes

  abbrev Closed : LoopState World → LoopState World → RoundEnd → Type 0
  Closed s t (answered text) = (str_eq text "" ≡ false) × (Bytes s → Bytes t)
  Closed s t (failed raised) = Unit
  Closed s t goes_on = (s.calls_used < t.calls_used) × (Bytes s → Bytes t)

  abbrev Ended : LoopState World → LoopState World × RoundEnd → Type 0
  Ended s end =
      (tool_messages end.0.history + s.calls_used ≤ tool_messages s.history + end.0.calls_used)
      × (s.calls_used ≤ end.0.calls_used)
      × (s.calls_used ≤ r.budget.max_calls → end.0.calls_used ≤ r.budget.max_calls)
      × Closed s end.0 end.1

  end_of-Ended :
      (s t : LoopState World) (n : ℕ) (raised : Option LoopError)
      → 0 < n
      → s.calls_used + n ≤ r.budget.max_calls
      → Made s n (t, raised)
      → Ended s (t, end_of raised)
  end_of-Ended s t n none some_calls within (a, b, c, (d, f)) =
      (a, c, λ h. omega (arith, b, within), (omega (arith, d, some_calls), f))
  end_of-Ended s t n (some x) some_calls within (a, b, c, d) =
      (a, c, λ h. omega (arith, b, within), tt)

  execute_parsed-Ended :
      (s : LoopState World) (n : ℕ) (calls : Option (List RoleToolCall))
      → 0 < n
      → s.calls_used + n ≤ r.budget.max_calls
      → HasLength n calls
      → Ended s (execute_parsed e r s calls)
  execute_parsed-Ended s n none some_calls within h = (omega arith, omega arith, λ k. k, tt)
  execute_parsed-Ended s n (some calls) some_calls within h =
      let done = execute_calls e r s calls in
      end_of-Ended s done.0 n done.1 some_calls within
        (subst (λ k. Made s k done) h (execute_calls-Made s calls))

  end_turn-Ended :
      (round_index : ℕ) (s : LoopState World) (turn : Turn) (no_calls over : Bool)
      → (no_calls ≡ false → 0 < length turn.raw_calls)
      → (over ≡ false → s.calls_used + length turn.raw_calls ≤ r.budget.max_calls)
      → Ended s (end_turn e r round_index s turn no_calls over)
  end_turn-Ended round_index s turn true over some_calls within =
      elim (Bool-cases (str_eq (strip turn.content) "")) [
        | inl empty ↦ rw empty (omega arith, omega arith, λ k. k, tt)
        | inr filled ↦ rw filled (omega arith, omega arith, λ k. k, (filled, λ h. h))
      ]
  end_turn-Ended round_index s turn false true some_calls within =
      (omega arith, omega arith, λ k. k, tt)
  end_turn-Ended round_index s turn false false some_calls within =
      execute_parsed-Ended s (length turn.raw_calls)
        (parse_calls e.loads round_index 0 turn.raw_calls) (some_calls refl) (within refl)
        (parse_calls-HasLength e.loads round_index 0 turn.raw_calls)

  run_turn-Ended :
      (round_index : ℕ) (s : LoopState World) (turn : Turn)
      → Ended s (run_turn e r round_index s turn)
  run_turn-Ended round_index s turn =
      let heard = record s { history = s.history ++ assistant_message turn ∷ [] } in
      let over = ltb r.budget.max_calls (s.calls_used + length turn.raw_calls) in
      let (a, b, c, d) =
        end_turn-Ended round_index heard turn (is_empty turn.raw_calls) over
          (length-pos turn.raw_calls) (λ h. ground (arith, h)) in
      (omega (arith, a, tool_messages-snoc s.history (assistant_message turn)), b, c, d)

  hear-Ended :
      (round_index : ℕ) (s : LoopState World) (turn : Result LoopError Turn)
      → Ended s (hear e r round_index s turn)
  hear-Ended round_index s (err raised) = (omega arith, omega arith, λ k. k, tt)
  hear-Ended round_index s (ok turn) = run_turn-Ended round_index s turn

  respond-Ended :
      (round_index : ℕ) (s : LoopState World) (response : Option Value)
      → Ended s (respond e r round_index s response)
  respond-Ended round_index s none = (omega arith, omega arith, λ k. k, tt)
  respond-Ended round_index s (some response) = elim (Bool-cases (e.is_late s.looks)) [
    | inl late ↦ rw late (omega arith, omega arith, λ k. k, tt)
    | inr early ↦ rw early (hear-Ended round_index (look e s).0 (parse_assistant response))
  ]

  run_round-Ended :
      (tools : List RoleToolDefinition) (round_index : ℕ) (s : LoopState World)
      → Ended s (run_round e r tools round_index s)
  unfolding run_round
  run_round-Ended tools round_index s =
      let looked = (look e s).0 in
      let (world, response) = e.chat r.model looked.history tools looked.world in
      elim (Bool-cases (e.is_late s.looks)) [
        | inl late ↦ rw late (omega arith, omega arith, λ k. k, tt)
        | inr early ↦
            rw early (respond-Ended round_index (record looked { world = world }) response)
      ]

  -- The run ended: within the budget of calls and, if it answers, with a text and within that of bytes.
  abbrev Answers : LoopState World → LoopState World → RoundEnd → Type 0
  Answers s t (answered text) = (str_eq text "" ≡ false) × (Bytes s → Bytes t)
  Answers s t (failed raised) = Unit
  Answers s t goes_on = ⊥

  abbrev Completed : LoopState World → LoopState World × RoundEnd → Type 0
  Completed s end =
      (tool_messages end.0.history + s.calls_used ≤ tool_messages s.history + end.0.calls_used)
      × (end.0.calls_used ≤ r.budget.max_calls)
      × Answers s end.0 end.1

  next-Completed :
      (s t : LoopState World) (end : RoundEnd) (rest : LoopState World × RoundEnd)
      → s.calls_used ≤ r.budget.max_calls
      → Ended s (t, end)
      → (s.calls_used < t.calls_used → t.calls_used ≤ r.budget.max_calls → Completed t rest)
      → Completed s (unless_ended t end rest)
  next-Completed s t (answered text) rest within (a, b, c, d) go = (a, c within, d)
  next-Completed s t (failed raised) rest within (a, b, c, d) go = (a, c within, tt)
  next-Completed s t goes_on (u, answered text) within (a, b, c, (d, f)) go =
      let (h, k, (l, m)) = go d (c within) in (omega (arith, a, h), k, (l, λ g. m (f g)))
  next-Completed s t goes_on (u, failed raised) within (a, b, c, (d, f)) go =
      let (h, k, l) = go d (c within) in (omega (arith, a, h), k, tt)
  next-Completed s t goes_on (u, goes_on) within (a, b, c, (d, f)) go =
      let (h, k, l) = go d (c within) in absurd l

  run_rounds-Completed :
      (tools : List RoleToolDefinition) (fuel round_index : ℕ) (s : LoopState World)
      → s.calls_used ≤ r.budget.max_calls
      → r.budget.max_calls < s.calls_used + fuel
      → Completed s (run_rounds e r tools fuel round_index s)
  unfolding run_rounds
  run_rounds-Completed tools zero round_index s within enough =
      absurd (omega (arith, within, enough))
  run_rounds-Completed tools (suc fuel) round_index s within enough =
      let first = run_round e r tools round_index s in
      next-Completed s first.0 first.1 (run_rounds e r tools fuel (suc round_index) first.0) within
        (run_round-Ended tools round_index s)
        (λ more still.
          run_rounds-Completed tools fuel (suc round_index) first.0 still
            (omega (arith, more, enough)))

module _ {World : Type 0} where
  abbrev pub KeepsBudget :
      RoleToolBudget → (messages : List Value) → LoopState World × RoundEnd → Type 0
  KeepsBudget budget messages end =
      (end.1 ≢ goes_on)
      × (tool_messages end.0.history ≤ tool_messages messages + budget.max_calls)
      × ((text : String) → end.1 ≡ answered text → str_eq text "" ≡ false)

  Completed-KeepsBudget :
      (e : Env World) (r : Request) (start t : LoopState World) (end : RoundEnd)
      → start.calls_used ≡ 0
      → Completed e r start (t, end)
      → KeepsBudget r.budget start.history (t, end)
  Completed-KeepsBudget e r start t (answered text) none_used (a, b, (filled, bytes)) = (
    λ h. absurd cc,
    omega (arith, a, b, none_used),
    λ other h. let same : text ≡ other = cc in subst (λ x. str_eq x "" ≡ false) same filled,
  )
  Completed-KeepsBudget e r start t (failed raised) none_used (a, b, c) =
      (λ h. absurd cc, omega (arith, a, b, none_used), λ other h. absurd cc)
  Completed-KeepsBudget e r start t goes_on none_used (a, b, c) = absurd c

  -- A run ends, in at most one round more than its budget has calls. It adds at most as many messages
  -- of tools to the history as its budget has calls, and if it answers, it does with a text that is not
  -- empty.
  pub run-KeepsBudget :
      (e : Env World) (r : Request) (messages : List Value) (broker : RoleToolBroker World)
      (world : World)
      → KeepsBudget r.budget messages (run e r messages broker world)
  unfolding run
  run-KeepsBudget e r messages broker world =
      let (audited, tools) = authorized_definitions broker r.profile in
      let start : LoopState World = record {
        world = world;
        broker = audited;
        history = messages;
        calls_used = 0;
        result_bytes_used = 0;
        looks = 0;
      } in
      let end = run_rounds e r tools (suc r.budget.max_calls) 0 start in
      elim (Bool-cases (str_eq (strip r.model) "")) [
        | inl no_model ↦ rw no_model (λ h. absurd cc, omega arith, λ text h. absurd cc)
        | inr model ↦ rw model (
            Completed-KeepsBudget e r start end.0 end.1 refl (
              run_rounds-Completed e r tools (suc r.budget.max_calls) 0 start (omega arith)
                (omega arith)))
      ]

-- ===== src/RoleToolLoop/Rounds.antt =====
-- `RoleToolLoop.run`. The model, the clock and the time that a handler takes are an `Env`.
use jarvis.Prelude.{
  ℕ, zero, suc, ◌+◌, Bool, true, false, if◌then◌else◌, ltb, is_empty, length, List, [], ◌∷◌, ◌++◌,
  Option, some, none, String, str_eq, strip,
}
use jarvis.Json.{Value}
use jarvis.Result.{Result, ok, err}
use jarvis.RoleRegistry.{AgentProfile}
use jarvis.RoleTools.Broker.{
  Library, RoleToolBudget, RoleToolBroker, RoleToolCall, RoleToolResult, RoleToolDefinition, invoke,
}
use jarvis.RoleToolLoop.Invocation.{authorized_definitions, find_invocation, found_or, fallback_of}
use jarvis.RoleToolLoop.Parse.{
  LoopError, model_invalid, content_empty, call_budget, call_invalid, result_budget, output_budget,
  elapsed_budget, chat_raised, Turn, parse_assistant, assistant_message, tool_message, parse_calls,
}

-- How a round ends: the loop returns a text, raises, or goes on.
pub data RoundEnd : Type 0 where
  answered : String → RoundEnd
  failed : LoopError → RoundEnd
  goes_on : RoundEnd

abbrev pub end_of : Option LoopError → RoundEnd
end_of none = goes_on
end_of (some raised) = failed raised

module _ (World : Type 0) where
  -- `chat` answers a response, or raises. `is_late n` is the answer of the n-th look at the clock, and
  -- `duration n` what the n-th call's handler takes.
  pub record Env : Type 0 where
    pub library : Library
    pub loads : String → Option Value
    pub chat :
        String
        → (history : List Value) → (tools : List RoleToolDefinition) → World
        → World × Option Value
    pub is_late : ℕ → Bool
    pub duration : ℕ → ℕ

  pub record LoopState : Type 0 where
    pub world : World
    pub broker : RoleToolBroker World
    pub history : List Value
    pub calls_used : ℕ
    pub result_bytes_used : ℕ
    pub looks : ℕ

-- What a conversation is about.
pub record Request : Type 0 where
  pub model : String
  pub profile : AgentProfile
  pub budget : RoleToolBudget

module _ {World : Type 0} where
  abbrev pub look : Env World → LoopState World → LoopState World × Bool
  look e s = (record s { looks = s.looks + 1 }, e.is_late s.looks)

  -- `_invoke`
  unfoldable pub invoke_tool :
      Env World → AgentProfile → LoopState World → RoleToolCall → LoopState World × RoleToolResult
  invoke_tool e profile s call =
      let (world, (broker, returned)) =
        invoke e.library s.broker profile call (e.duration s.calls_used) s.world in
      (
        record s { world = world; broker = broker },
        found_or e.library (fallback_of returned) (find_invocation e.library broker profile call),
      )

  -- After the tool has answered.
  abbrev pub accept_result :
      Env World
      → Request
      → LoopState World
      → RoleToolCall
      → RoleToolResult
      → LoopState World × Option LoopError
  accept_result e r s call result =
      let used = record s { result_bytes_used = s.result_bytes_used + result.byte_size } in
      let (looked, late) = look e used in
      if ltb r.budget.max_result_bytes result.byte_size
      then (s, some result_budget)
      else if ltb r.budget.max_total_result_bytes used.result_bytes_used
      then (used, some output_budget)
      else if late
      then (looked, some elapsed_budget)
      else (record looked { history = s.history ++ tool_message call result ∷ [] }, none)

  -- The body of the loop over the calls.
  unfoldable pub execute_call :
      Env World → Request → LoopState World → RoleToolCall → LoopState World × Option LoopError
  execute_call e r s call =
      let (looked, late) = look e (record s { calls_used = s.calls_used + 1 }) in
      let (called, result) = invoke_tool e r.profile looked call in
      if late then (looked, some elapsed_budget) else accept_result e r called call result

  abbrev pub unless_raised :
      LoopState World
      → Option LoopError
      → LoopState World × Option LoopError
      → LoopState World × Option LoopError
  unless_raised s none rest = rest
  unless_raised s (some raised) rest = (s, some raised)

  unfoldable pub execute_calls :
      Env World → Request → LoopState World → List RoleToolCall → LoopState World × Option LoopError
  execute_calls e r s [] = (s, none)
  execute_calls e r s (call ∷ calls) =
      let one = execute_call e r s call in unless_raised one.0 one.1 (execute_calls e r one.0 calls)

  abbrev pub execute_parsed :
      Env World
      → Request
      → LoopState World
      → Option (List RoleToolCall)
      → LoopState World × RoundEnd
  execute_parsed e r s none = (s, failed call_invalid)
  execute_parsed e r s (some calls) =
      let done = execute_calls e r s calls in (done.0, end_of done.1)

  -- Without calls the loop returns; with more than the budget has left it raises.
  abbrev pub end_turn :
      Env World
      → Request
      → (round_index : ℕ) → LoopState World
      → Turn
      → (no_calls over : Bool) → LoopState World × RoundEnd
  end_turn e r round_index s turn true over = (
    s,
    if str_eq (strip turn.content) "" then failed content_empty else answered (strip turn.content),
  )
  end_turn e r round_index s turn false true = (s, failed call_budget)
  end_turn e r round_index s turn false false =
      execute_parsed e r s (parse_calls e.loads round_index 0 turn.raw_calls)

  -- The rest of a round, from the calls of the response on.
  abbrev pub run_turn :
      Env World → Request → (round_index : ℕ) → LoopState World → Turn → LoopState World × RoundEnd
  run_turn e r round_index s turn =
      end_turn e r round_index (record s { history = s.history ++ assistant_message turn ∷ [] })
        turn (is_empty turn.raw_calls)
        (ltb r.budget.max_calls (s.calls_used + length turn.raw_calls))

  abbrev pub hear :
      Env World
      → Request
      → (round_index : ℕ) → LoopState World
      → Result LoopError Turn
      → LoopState World × RoundEnd
  hear e r round_index s (err raised) = (s, failed raised)
  hear e r round_index s (ok turn) = run_turn e r round_index s turn

  abbrev pub respond :
      Env World
      → Request
      → (round_index : ℕ) → LoopState World
      → Option Value
      → LoopState World × RoundEnd
  respond e r round_index s none = (s, failed chat_raised)
  respond e r round_index s (some response) =
      let (looked, late) = look e s in
      if late
      then (looked, failed elapsed_budget)
      else hear e r round_index looked (parse_assistant response)

  -- One round of `while True`.
  unfoldable pub run_round :
      Env World
      → Request
      → (tools : List RoleToolDefinition) → (round_index : ℕ) → LoopState World
      → LoopState World × RoundEnd
  run_round e r tools round_index s =
      let (looked, late) = look e s in
      let (world, response) = e.chat r.model looked.history tools looked.world in
      if late
      then (looked, failed elapsed_budget)
      else respond e r round_index (record looked { world = world }) response

  abbrev pub unless_ended :
      LoopState World → RoundEnd → LoopState World × RoundEnd → LoopState World × RoundEnd
  unless_ended s goes_on rest = rest
  unless_ended s end rest = (s, end)

  -- The loop, in at most `fuel` rounds; out of fuel it still goes on.
  unfoldable pub run_rounds :
      Env World
      → Request
      → (tools : List RoleToolDefinition) → (fuel round_index : ℕ) → LoopState World
      → LoopState World × RoundEnd
  run_rounds e r tools zero round_index s = (s, goes_on)
  run_rounds e r tools (suc fuel) round_index s =
      let first = run_round e r tools round_index s in
      unless_ended first.0 first.1 (run_rounds e r tools fuel (suc round_index) first.0)

  -- `run`, for messages that are Mappings and a timeout that is positive and finite. Each round but the
  -- last takes a call of the budget.
  unfoldable pub run :
      Env World
      → Request
      → (messages : List Value) → RoleToolBroker World
      → World
      → LoopState World × RoundEnd
  run e r messages broker world =
      let (audited, tools) = authorized_definitions broker r.profile in
      let start : LoopState World = record {
        world = world;
        broker = audited;
        history = messages;
        calls_used = 0;
        result_bytes_used = 0;
        looks = 0;
      } in
      if str_eq (strip r.model) ""
      then (record start { broker = broker }, failed model_invalid)
      else run_rounds e r tools (suc r.budget.max_calls) 0 start

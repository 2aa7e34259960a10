-- ===== src/RoleTools/Broker.antt =====
-- `RoleToolPolicy` and `RoleToolBroker`: every call is decided, recorded and, if it is allowed, made.
use jarvis.Prelude.{
  ℕ, ◌+◌, ◌-◌, Bool, true, false, not, if◌then◌else◌, ltb, List, [], ◌∷◌, ◌++◌, drop, length,
  Option, some, none, String, str_eq, elem, codes,
}
use jarvis.Json.{Value, Members, obj, str, no_member, member}
use jarvis.Result.{Result, err, ok}
use jarvis.RoleRegistry.{AgentProfile, from_keys}
use jarvis.RoleTools.JsonSize.{
  SizeError, overflow, not_finite, value_error, bounded_stable_json_size, require_json,
}
use jarvis.RoleTools.Schema.{Schema, Comparison, validate_value}

pub record RoleToolDecision : Type 0 where
  pub role_name : String
  pub tool_name : String
  pub allowed : Bool
  pub reason : String

pub record RoleToolCall : Type 0 where
  pub name : String
  pub arguments : Members
  pub round_index : ℕ
  pub call_index : ℕ
  pub call_id : Option String

pub record RoleToolResult : Type 0 where
  pub success : Bool
  pub content : String
  pub byte_size : ℕ
  pub error : Option String

-- `elapsed_seconds` is a float, here its 64 bits.
pub record RoleToolInvocation : Type 0 where
  pub role_name : String
  pub call : RoleToolCall
  pub result : RoleToolResult
  pub allowed : Bool
  pub reason : String
  pub elapsed_seconds : ℕ

pub record RoleToolDefinition : Type 0 where
  pub name : String
  pub description : String
  pub parameters : Schema

pub record RoleToolBudget : Type 0 where
  pub max_calls : ℕ
  pub max_argument_bytes : ℕ
  pub max_result_bytes : ℕ
  pub max_total_result_bytes : ℕ
  pub max_elapsed_seconds : ℕ

-- How a handler ends: it returns, or raises a RoleToolDeniedError, a RoleToolProtocolError, or
-- another exception.
pub data HandlerEnd : Type 0 where
  returned : Value → HandlerEnd
  denied_error protocol_error other_error : HandlerEnd

-- What `invoke` raises; `arguments_raised` is a ValueError of the check of the arguments.
pub data InvokeError : Type 0 where
  denied : String → InvokeError
  handler_raised : HandlerEnd → InvokeError
  arguments_raised : InvokeError

-- What there is against the arguments: the call is denied, or the check raises a ValueError.
pub data ArgumentFault : Type 0 where
  refuses : (reason : String) → ArgumentFault
  unsizable : ArgumentFault

-- The length in bytes of a text in UTF-8.
abbrev pub utf8_size : List ℕ → ℕ
utf8_size [] = 0
utf8_size (c ∷ cs) =
    (if ltb c 128 then 1 else if ltb c 2048 then 2 else if ltb c 65536 then 3 else 4) + utf8_size cs

-- What the broker uses of the standard library: json.dumps with the arguments of
-- `stable_json_bytes`, the length of json.dumps of a float, and `==` and `<`.
pub record Library : Type 0 where
  pub dumps : Value → String
  pub float_size : ℕ → ℕ
  pub comparison : Comparison

-- deque(maxlen=limit).append
abbrev pub append_bounded {ℓ} : {A : Type ℓ} → ℕ → List A → A → List A
append_bounded limit xs x = drop (length xs + 1 - limit) (xs ++ x ∷ [])

abbrev pub grants_of : List (String × List String) → String → List String
grants_of [] role_name = []
grants_of (g ∷ grants) role_name = if str_eq g.0 role_name then g.1 else grants_of grants role_name

abbrev pub definition_of : List RoleToolDefinition → String → Option RoleToolDefinition
definition_of [] name = none
definition_of (d ∷ definitions) name =
    if str_eq d.name name then some d else definition_of definitions name

-- The handlers act on a world that the broker does not look at.
module _ (World : Type 0) where
  abbrev pub Handler : Type 0
  Handler = Members → World → World × HandlerEnd

  abbrev pub handler_of : List (String × Handler) → String → Option Handler
  handler_of [] name = none
  handler_of (h ∷ handlers) name = if str_eq h.0 name then some h.1 else handler_of handlers name

  pub record RoleToolBroker : Type 0 where
    pub policy : List (String × List String)
    pub handlers : List (String × Handler)
    pub definitions : List RoleToolDefinition
    pub budget : RoleToolBudget
    pub audit_limit : ℕ
    pub audit : List RoleToolDecision
    pub invocations : List RoleToolInvocation

-- `RoleToolPolicy.is_granted`.
abbrev pub is_granted : List (String × List String) → String → String → Bool
is_granted policy role_name tool_name = elem tool_name (grants_of policy role_name)

abbrev decided : AgentProfile → String → String → RoleToolDecision
decided profile tool_name reason = record {
  role_name = profile.name;
  tool_name = tool_name;
  allowed = str_eq reason "allowed";
  reason = reason;
}

module _ (l : Library) where
  open l use {dumps}

  -- `RoleToolResult.from_value` of a value that is JSON.
  abbrev pub from_value : Value → RoleToolResult
  from_value v = record {
    success = true;
    content = dumps v;
    byte_size = utf8_size (codes (dumps v));
    error = none;
  }

  abbrev pub failure : String → RoleToolResult
  failure reason =
      let content = dumps (obj (member "error" (str reason) no_member)) in
      record {
        success = false;
        content = content;
        byte_size = utf8_size (codes content);
        error = some reason;
      }

module _ {World : Type 0} where
  abbrev pub is_registered : List (String × Handler World) → String → Bool
  is_registered handlers name = elim (handler_of World handlers name) [
    | none ↦ false
    | some h ↦ true
  ]

  abbrev pub decision_reason : RoleToolBroker World → AgentProfile → String → String
  decision_reason b profile tool_name =
      if not (elem tool_name profile.tools)
      then "tool_not_declared"
      else if not (is_granted b.policy profile.name tool_name)
      then "tool_not_granted"
      else if not (is_registered b.handlers tool_name)
      then "tool_not_registered"
      else "allowed"

  unfoldable pub decide :
      RoleToolBroker World → AgentProfile → String → RoleToolBroker World × RoleToolDecision
  decide b profile tool_name =
      let decision = decided profile tool_name (decision_reason b profile tool_name) in
      (record b { audit = append_bounded b.audit_limit b.audit decision }, decision)

  -- The loop of `authorized_tools`.
  unfoldable pub authorize :
      RoleToolBroker World → AgentProfile → List String → RoleToolBroker World × List String
  authorize b profile [] = (b, [])
  authorize b profile (tool_name ∷ tools) =
      let first = decide b profile tool_name in
      let rest = authorize first.0 profile tools in
      (rest.0, (if first.1.allowed then tool_name ∷ rest.1 else rest.1))

  unfoldable pub authorized_tools :
      RoleToolBroker World → AgentProfile → RoleToolBroker World × List String
  authorized_tools b profile = authorize b profile (from_keys profile.tools)

  abbrev pub record_invocation :
      RoleToolBroker World
      → AgentProfile
      → RoleToolCall
      → RoleToolResult
      → Bool
      → String
      → ℕ
      → RoleToolBroker World
  record_invocation b profile call result allowed reason elapsed = record b {
    invocations = append_bounded b.audit_limit b.invocations (record {
      role_name = profile.name;
      call = call;
      result = result;
      allowed = allowed;
      reason = reason;
      elapsed_seconds = elapsed;
    });
  }

  module _ (l : Library) where
    open l use {float_size, comparison}

    -- `_deny_call`.
    abbrev pub deny_call :
        RoleToolBroker World
        → AgentProfile
        → RoleToolCall
        → String
        → RoleToolBroker World × Result InvokeError Value
    deny_call b profile call reason =
        (record_invocation b profile call (failure l reason) false reason 0, err (denied reason))

    -- The `try` around a returned result, whose bounded size is `size`.
    unfoldable pub settle_result :
        RoleToolBroker World
        → AgentProfile
        → RoleToolCall
        → (elapsed : ℕ) → Value
        → (size : Result SizeError ℕ) → RoleToolBroker World × Result InvokeError Value
    settle_result b profile call elapsed result (err overflow) =
        deny_call b profile call "result_too_large"
    settle_result b profile call elapsed result (err not_finite) =
        deny_call b profile call "invalid_result"
    settle_result b profile call elapsed result (err value_error) = (
      record_invocation b profile call (failure l "handler_error") false "handler_error" elapsed,
      err (handler_raised other_error),
    )
    settle_result b profile call elapsed result (ok size) =
        if not (require_json result)
        then deny_call b profile call "invalid_result"
        else if ltb b.budget.max_result_bytes (from_value l result).byte_size
        then deny_call b profile call "result_too_large"
        else (
          record_invocation b profile call (from_value l result) true "allowed" elapsed,
          ok result,
        )

    -- From `started = time.monotonic()` on, with what the handler did; `elapsed` is the time it took.
    unfoldable pub settle :
        RoleToolBroker World
        → AgentProfile
        → RoleToolCall
        → (elapsed : ℕ) → HandlerEnd
        → RoleToolBroker World × Result InvokeError Value
    settle b profile call elapsed denied_error = (b, err (handler_raised denied_error))
    settle b profile call elapsed protocol_error = deny_call b profile call "invalid_result"
    settle b profile call elapsed other_error = (
      record_invocation b profile call (failure l "handler_error") false "handler_error" elapsed,
      err (handler_raised other_error),
    )
    settle b profile call elapsed (returned result) =
        settle_result b profile call elapsed result
          (bounded_stable_json_size float_size b.budget.max_result_bytes result)

    -- The checks of a protocol call's arguments; `none` if there is nothing against them.
    unfoldable pub argument_fault : RoleToolBroker World → RoleToolCall → Option ArgumentFault
    argument_fault b call = elim (definition_of b.definitions call.name) [
      | none ↦ some (refuses "tool_definition_not_registered")
      | some definition ↦
          elim (bounded_stable_json_size float_size b.budget.max_argument_bytes
            (obj call.arguments)) [
              | err overflow ↦ some (refuses "argument_too_large")
              | err not_finite ↦ some (refuses "invalid_arguments")
              | err value_error ↦ some unsizable
              | ok size ↦
                  if validate_value comparison (obj call.arguments) definition.parameters
                  then none
                  else some (refuses "invalid_arguments")
            ]
    ]

    -- A ValueError of the check leaves no record.
    abbrev pub refuse_arguments :
        RoleToolBroker World
        → AgentProfile
        → RoleToolCall
        → ArgumentFault
        → RoleToolBroker World × Result InvokeError Value
    refuse_arguments b profile call (refuses reason) = deny_call b profile call reason
    refuse_arguments b profile call unsizable = (b, err arguments_raised)

    -- `invoke` of a protocol call. An allowed tool has a handler.
    unfoldable pub invoke :
        RoleToolBroker World
        → AgentProfile
        → RoleToolCall
        → (elapsed : ℕ) → World
        → World × (RoleToolBroker World × Result InvokeError Value)
    invoke b profile call elapsed world =
        let (audited, decision) = decide b profile call.name in
        if not decision.allowed
        then (world, deny_call audited profile call decision.reason)
        else elim (argument_fault audited call) [
          | some fault ↦ (world, refuse_arguments audited profile call fault)
          | none ↦ elim (handler_of World audited.handlers call.name) [
            | none ↦ (world, (audited, err (denied "tool_not_registered")))
            | some handler ↦
                let (after, end) = handler call.arguments world in
                (after, settle audited profile call elapsed end)
          ]
        ]

    -- `invoke` of a tool's name. `none` stands for a name that is no string, and for arguments that
    -- are neither a Mapping nor missing; missing ones are those without a member.
    unfoldable pub invoke_name :
        RoleToolBroker World
        → AgentProfile
        → Option String
        → Option Members
        → World
        → World × (RoleToolBroker World × Result InvokeError Value)
    invoke_name b profile none arguments world = (world, (b, err (denied "invalid tool name")))
    invoke_name b profile (some tool_name) none world = (
      world,
      (b, err (denied (if str_eq tool_name "" then "invalid tool name" else "invalid arguments"))),
    )
    invoke_name b profile (some tool_name) (some arguments) world =
        let (audited, decision) = decide b profile tool_name in
        if str_eq tool_name ""
        then (world, (b, err (denied "invalid tool name")))
        else if not decision.allowed
        then (world, (audited, err (denied decision.reason)))
        else elim (handler_of World audited.handlers tool_name) [
          | none ↦ (world, (audited, err (denied "tool_not_registered")))
          | some handler ↦
              let (after, end) = handler arguments world in
              (
                after,
                (
                  audited,
                  elim end [ returned result ↦ ok result | raised ↦ err (handler_raised raised) ],
                ),
              )
        ]

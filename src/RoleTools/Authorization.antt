-- ===== src/RoleTools/Authorization.antt =====
-- What the broker lets through, and what it records.
use jarvis.Prelude.{
  ℕ, ◌≡◌, ◌≢◌, ◌⊎◌, inl, inr, refl, sym, ap, ◌∙◌, Bool, true, false, Bool-cases, Option-cases, not,
  ◌&&◌, if◌then◌else◌, ltb, List, [], ◌∷◌, select, some, none, String, str_eq, elem, arith,
  and_parts,
}
use jarvis.Json.{Value}
use jarvis.Result.{Result, err, ok}
use jarvis.RoleRegistry.{AgentProfile, from_keys}
use jarvis.RoleTools.JsonSize.{
  SizeError, overflow, not_finite, value_error, require_json, bounded_stable_json_size,
}
use jarvis.RoleTools.Broker.{
  RoleToolCall, RoleToolInvocation, RoleToolBroker, HandlerEnd, returned, denied_error,
  protocol_error, other_error, InvokeError, handler_raised, Handler, from_value, Library,
  append_bounded, is_granted, is_registered, handler_of, decide, authorize, authorized_tools,
  settle, settle_result, argument_fault, invoke, refuse_arguments, ArgumentFault, refuses,
  unsizable,
}

abbrev pub is_ok : Result InvokeError Value → Bool
is_ok (ok a) = true
is_ok (err e) = false

reason-allowed :
    (declared granted registered : Bool)
    → str_eq
        (if not declared
          then "tool_not_declared"
          else if not granted
          then "tool_not_granted"
          else if not registered
          then "tool_not_registered"
          else "allowed")
        "allowed"
      ≡ (declared && granted && registered)
reason-allowed true true true = refl
reason-allowed true true false = refl
reason-allowed true false registered = refl
reason-allowed false granted registered = refl

module _ {World : Type 0} where
  -- The role declares the tool, the policy grants it, and it has a handler.
  abbrev pub is_authorized : RoleToolBroker World → AgentProfile → String → Bool
  is_authorized b profile tool_name =
      elem tool_name profile.tools
      && is_granted b.policy profile.name tool_name
      && is_registered b.handlers tool_name

  decide-allowed :
      (b : RoleToolBroker World) (profile : AgentProfile) (tool_name : String)
      → (decide b profile tool_name).1.allowed ≡ is_authorized b profile tool_name
  unfolding decide
  decide-allowed b profile tool_name =
      reason-allowed (elem tool_name profile.tools) (is_granted b.policy profile.name tool_name)
        (is_registered b.handlers tool_name)

  select-decide :
      (b : RoleToolBroker World) (profile : AgentProfile) (tool_name : String) (tools : List String)
      → select (is_authorized (decide b profile tool_name).0 profile) tools
        ≡ select (is_authorized b profile) tools
  unfolding decide
  select-decide b profile tool_name tools = refl

  authorize_lem :
      (b : RoleToolBroker World) (profile : AgentProfile) (tools : List String)
      → (authorize b profile tools).1 ≡ select (is_authorized b profile) tools
  unfolding authorize
  authorize_lem b profile [] = refl
  authorize_lem b profile (tool ∷ tools) = rw (decide-allowed b profile tool) (
      ap (λ rest. if is_authorized b profile tool then tool ∷ rest else rest)
        (authorize_lem (decide b profile tool).0 profile tools
          ∙ select-decide b profile tool tools))

  -- The tools that the broker offers a role are those that the role declares, that are granted to it
  -- and that have a handler, each once and in the order of their first declaration.
  pub authorized_tools_lem :
      (b : RoleToolBroker World) (profile : AgentProfile)
      → (authorized_tools b profile).1 ≡ select (is_authorized b profile) (from_keys profile.tools)
  unfolding authorized_tools
  authorized_tools_lem b profile = authorize_lem b profile (from_keys profile.tools)

  argument_fault-decide :
      (l : Library) (b : RoleToolBroker World) (profile : AgentProfile) (tool_name : String)
      (call : RoleToolCall)
      → argument_fault l (decide b profile tool_name).0 call ≡ argument_fault l b call
  unfolding decide argument_fault
  argument_fault-decide l b profile tool_name call = refl

  -- The handler of a protocol call acts on the world only if the role declares the tool, the policy
  -- grants it, it has a handler and there is nothing against the arguments.
  pub invoke-authorized :
      (l : Library) (b : RoleToolBroker World) (profile : AgentProfile) (call : RoleToolCall)
      (elapsed : ℕ) (world : World)
      → ((invoke l b profile call elapsed world).0 ≡ world)
        ⊎ ((is_authorized b profile call.name ≡ true) × (argument_fault l b call ≡ none))
  unfolding invoke
  invoke-authorized l b profile call elapsed world =
      elim (Bool-cases (decide b profile call.name).1.allowed) [
        | inr refused ↦ inl (rw refused refl)
        | inl permitted ↦
            elim (Option-cases (argument_fault l (decide b profile call.name).0 call)) [
              | inl nothing ↦ inr (
                sym (decide-allowed b profile call.name) ∙ permitted,
                sym (argument_fault-decide l b profile call.name call) ∙ nothing,
              )
              | inr (reason, fault) ↦ inl (rw (permitted, fault) refl)
            ]
      ]

  -- What a call leaves in the log of invocations: nothing, if its handler raises a
  -- RoleToolDeniedError, or else one entry with the call and whether it succeeded.
  abbrev pub Recorded :
      RoleToolBroker World → RoleToolCall → RoleToolBroker World × Result InvokeError Value → Type 0
  Recorded b call end =
      ((end.0.invocations ≡ b.invocations) × (end.1 ≡ err (handler_raised denied_error)))
      ⊎ ((i : RoleToolInvocation) × (end.0.invocations
            ≡ append_bounded b.audit_limit b.invocations i)
          × (i.call ≡ call)
          × (i.allowed ≡ is_ok end.1)
          × (i.result.success ≡ is_ok end.1))

  settle_result-Recorded :
      (l : Library) (b : RoleToolBroker World) (profile : AgentProfile) (call : RoleToolCall)
      (elapsed : ℕ) (v : Value) (size : Result SizeError ℕ)
      → Recorded b call (settle_result l b profile call elapsed v size)
  unfolding settle_result
  settle_result-Recorded l b profile call elapsed v (err overflow) = inr (_, refl, refl, refl, refl)
  settle_result-Recorded l b profile call elapsed v (err not_finite) =
      inr (_, refl, refl, refl, refl)
  settle_result-Recorded l b profile call elapsed v (err value_error) =
      inr (_, refl, refl, refl, refl)
  settle_result-Recorded l b profile call elapsed v (ok size) = elim (Bool-cases (require_json v)) [
    | inr bad ↦ rw bad (inr (_, refl, refl, refl, refl))
    | inl good ↦ elim (Bool-cases (ltb b.budget.max_result_bytes (from_value l v).byte_size)) [
      | inl large ↦ rw (good, large) (inr (_, refl, refl, refl, refl))
      | inr small ↦ rw (good, small) (inr (_, refl, refl, refl, refl))
    ]
  ]

  settle-Recorded :
      (l : Library) (b : RoleToolBroker World) (profile : AgentProfile) (call : RoleToolCall)
      (elapsed : ℕ) (end : HandlerEnd)
      → Recorded b call (settle l b profile call elapsed end)
  unfolding settle
  settle-Recorded l b profile call elapsed denied_error = inl (refl, refl)
  settle-Recorded l b profile call elapsed protocol_error = inr (_, refl, refl, refl, refl)
  settle-Recorded l b profile call elapsed other_error = inr (_, refl, refl, refl, refl)
  settle-Recorded l b profile call elapsed (returned v) =
      settle_result-Recorded l b profile call elapsed v
        (bounded_stable_json_size l.float_size b.budget.max_result_bytes v)

  Recorded-decide :
      (b : RoleToolBroker World) (profile : AgentProfile) (call : RoleToolCall)
      (end : RoleToolBroker World × Result InvokeError Value)
      → Recorded (decide b profile call.name).0 call end
      → Recorded b call end
  unfolding decide
  Recorded-decide b profile call end h = h

  registered :
      (b : RoleToolBroker World) (profile : AgentProfile) (name : String)
      → (decide b profile name).1.allowed ≡ true
      → (h : Handler World) × (handler_of World (decide b profile name).0.handlers name ≡ some h)
  unfolding decide
  registered b profile name permitted =
      let (granted, there) =
        and_parts (elem name profile.tools && is_granted b.policy profile.name name)
          (is_registered b.handlers name) (sym (decide-allowed b profile name) ∙ permitted) in
      elim (Option-cases (handler_of World b.handlers name)) [
        | inl absent ↦ absurd (ground (arith, absent, there))
        | inr found ↦ found
      ]

  -- What the arguments are refused for is recorded, unless it is a ValueError.
  refuse_arguments-Recorded :
      (l : Library) (b : RoleToolBroker World) (profile : AgentProfile) (call : RoleToolCall)
      (fault : ArgumentFault)
      → fault ≢ unsizable
      → Recorded b call (refuse_arguments l b profile call fault)
  refuse_arguments-Recorded l b profile call (refuses reason) h = inr (_, refl, refl, refl, refl)
  refuse_arguments-Recorded l b profile call unsizable h = absurd (h refl)

  -- A protocol call whose arguments do not make their check raise a ValueError is recorded: it adds one
  -- entry to the bounded log of invocations, which holds the call and whether it succeeded, unless its
  -- handler raises a RoleToolDeniedError.
  pub invoke-Recorded :
      (l : Library) (b : RoleToolBroker World) (profile : AgentProfile) (call : RoleToolCall)
      (elapsed : ℕ) (world : World)
      → argument_fault l b call ≢ some unsizable
      → Recorded b call (invoke l b profile call elapsed world).1
  unfolding invoke
  invoke-Recorded l b profile call elapsed world sizable =
      let audited = (decide b profile call.name).0 in
      Recorded-decide b profile call (invoke l b profile call elapsed world).1
        (elim (Bool-cases (decide b profile call.name).1.allowed) [
          | inr refused ↦ rw refused (inr (_, refl, refl, refl, refl))
          | inl permitted ↦ elim (Option-cases (argument_fault l audited call)) [
            | inr (fault, found) ↦
                let other : fault ≢ unsizable = λ e. sizable (
                  sym (argument_fault-decide l b profile call.name call)
                  ∙ found
                  ∙ ap (λ f. some f) e) in
                rw (permitted, found) (refuse_arguments-Recorded l audited profile call fault other)
            | inl nothing ↦
                let (handler, found) = registered b profile call.name permitted in
                rw (permitted, nothing, found)
                  (settle-Recorded l audited profile call elapsed (handler call.arguments world).1)
          ]
        ])

-- ===== src/Lib.antt =====
-- XiaoYi J.A.R.V.I.S.: a model of the Python core (src/) and the theorems that make it correct.
--
-- Parts:
--
-- - Workflow: the workflow graphs of src/core/brain/workflow_dag.py. Workflow/Node has the nodes
--   and the errors, Workflow/Layers the topological layering (`Workflow._compute_layers`),
--   Workflow/Build the checks of `Workflow.__init__`, Workflow/Engine the execution
--   (`WorkflowEngine.run`). The engine runs a layer's nodes in a thread pool: what the dispatch
--   callback answers, the clock and the order in which the threads end are an `Env`.
-- - EventBus: the event bus of src/core/kernel/event_bus.py. EventBus has its state and operations,
--   EventBus/Subscriptions the lemmas on the table, EventBus/Reachable the states that a sequence of
--   operations reaches, EventBus/History the queries. Every method is one step, under the lock.
-- - RoleRegistry: the roles and their inheritance, of src/core/brain/role_registry.py.
--   RoleRegistry/Cycles is about `register` and `unregister`, RoleRegistry/Inheritance about
--   `_resolve_inheritance`.
-- - RoleTools: the boundary of the role tools. RoleTools/JsonSize and RoleTools/Schema are
--   `bounded_stable_json_size` and `_validate_value` of src/core/contracts/role_tool_protocol.py,
--   RoleTools/Broker is `RoleToolPolicy` and `RoleToolBroker` of src/core/brain/role_tools.py. The
--   broker reads the role that the registry resolves. RoleTools/Calls decodes a model's call. A handler is a function on a `World`; what the
--   broker uses of the standard library (json.dumps, number comparison) is a `Library`.
-- - RoleToolLoop: the conversation of a model and its tools, of src/core/brain/role_tool_loop.py, over
--   the broker of RoleTools. RoleToolLoop/Parse has the messages, RoleToolLoop/Rounds `run`; the model,
--   the clock and the time that a handler takes are an `Env`.
-- - ContextBudget: the snapshots, the provider and the monitor of src/core/brain/context_budget.py
--   and src/core/contracts/context_budget.py. Python's floats are a `Floats`.
-- - RunState: the state of a run, of src/core/contracts/run_state.py. RunState has the records and
--   their `__post_init__` checks, RunState/Document and RunState/Decode the documents (`to_dict`,
--   `from_dict`) and `evolve`. What the checks use of the standard library is a `Library`.
-- - RunLifecycle: the decisions of src/app/run_lifecycle.py over such a state: what a recovery
--   advises, and the state that a context event checkpoints.
-- - Orchestrator: the agents and the dispatch of tasks to them, of src/core/brain/orchestrator.py.
--   Orchestrator/Agent has the methods of `_RegisteredAgent`, each one step under the agent's lock;
--   Orchestrator/Exclusion is about any order of such steps, Orchestrator/Outliving about the threads
--   that go on running after a timeout. Orchestrator/Table has the
--   table of agents, Orchestrator/Dispatch a dispatch in the part before the handler runs and the part
--   after it, and `collect`; Orchestrator/Outcome is
--   what an execution comes to; Orchestrator/Retry is `dispatch_with_retry`. What handlers and workers do is an `Execution`.
-- - Capabilities: the resolver of src/core/kernel/capability_resolver.py. Capabilities/Version has the
--   versions and constraints, Capabilities/Compatibility the records (of
--   src/core/kernel/capability_manifest.py) and `evaluate_compatibility`, Capabilities/Snapshot the
--   snapshot of the records, Capabilities/Resolver `resolve`,
--   Capabilities/Score the score as a sum of points. Unicode's digits, case folding and the tokens of a text are a `Library`.
-- - PluginBroker: the sessions of src/core/kernel/plugin_broker.py. PluginBroker/JsonSize has the sizes of
--   JSON of src/core/contracts/plugin_worker_protocol.py, PluginBroker/Broker has what the
--   broker permits, PluginBroker/Admission a request in the step before its handler,
--   PluginBroker/Session the step after it, `commit_events` and `abort`; PluginBroker/Outbox, PluginBroker/Threads and PluginBroker/Trace
--   are about any order of
--   such steps, PluginBroker/Authorization about what is allowed. A commit goes to the bus of EventBus.
-- - Prelude, Result and Json are what the parts share: tests, lists, texts and sorting; functions
--   that may raise; decoded JSON.
--
-- Conventions: a function that may raise returns a `Result` with the exception as a value. An
-- object is a record, a method a function of it. Native numbers stand for Python's non-negative
-- integers; where the source may go below zero the model writes it out.
--
-- Fuel: the `while` loop of the layering gets one round more than there are nodes, and that of the
-- cycle check two more than there are roles; both are enough. The chain of an inheritance is
-- followed with any fuel, and there is enough of it in an acyclic registry. The loop of a conversation
-- gets one round more than its budget has calls: every round but the last takes one.
--
-- Not modelled: the workers of the agents, the discovery of capabilities, the compression of contexts
-- and the handlers of the plugin broker of src/core; the memory index and the adapters to files, git
-- and SQLite; what only prints or logs, the HTTP servers, the frontend and the platform sandboxes,
-- which are input and output; float arithmetic.
pub mod Capabilities
pub mod ContextBudget
pub mod EventBus
pub mod Json
pub mod Orchestrator
pub mod PluginBroker
pub mod Prelude
pub mod Result
pub mod RoleRegistry
pub mod RoleToolLoop
pub mod RoleTools
pub mod RunLifecycle
pub mod RunState
pub mod Workflow

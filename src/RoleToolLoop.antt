-- ===== src/RoleToolLoop.antt =====
-- src/core/brain/role_tool_loop.py: the conversation of a model and its tools. The loop drives the
-- broker of RoleTools; the model is what it calls.
pub mod Parse
pub mod Invocation
pub mod Rounds
pub mod Budget
mod Samples

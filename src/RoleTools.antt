-- ===== src/RoleTools.antt =====
-- src/core/contracts/role_tool_protocol.py and src/core/brain/role_tools.py: the values at the
-- broker's boundary, their size and their schemas, and the broker that authorizes every call.
pub mod JsonSize
pub mod Schema
pub mod Broker
pub mod Authorization
pub mod Calls
mod Samples

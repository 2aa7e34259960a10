-- ===== src/PluginBroker.antt =====
-- src/core/kernel/plugin_broker.py: the sessions in which a plugin's worker asks its parent for a
-- capability, their budgets, and the events that they stage for the bus.
pub mod JsonSize
pub mod Broker
pub mod Admission
pub mod Session
pub mod Outbox
pub mod Threads
pub mod Trace
pub mod Authorization
mod Samples

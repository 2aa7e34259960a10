-- ===== src/Capabilities.antt =====
-- src/core/kernel/capability_resolver.py: versions and constraints, the compatibility of a capability
-- with a target, and the resolver. The records are those of src/core/kernel/capability_manifest.py.
pub mod Version
pub mod Order
pub mod Compatibility
pub mod Snapshot
pub mod Resolver
pub mod Score
pub mod Ranked
pub mod Total
pub mod Resolves
mod Samples

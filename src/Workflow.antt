-- ===== src/Workflow.antt =====
-- src/core/brain/workflow_dag.py: the graph of a workflow, its validation and its layers.
pub mod Node
pub mod Layers
pub mod Build
pub mod Engine
mod Samples

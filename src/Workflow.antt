-- ===== src/Workflow.antt =====
-- The workflow state of a deployment and the lifecycle commands that move it.
pub mod State
pub mod World
pub mod Status
pub mod Permits
pub mod Failure
pub mod Diagram
pub mod Commands

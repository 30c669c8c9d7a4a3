-- ===== src/Services/Workflow.antt =====
-- services/workflow_service.py: the workflow lifecycle and the approval state machine.
pub mod Model
pub mod Start
pub mod Decide
pub mod Decisions
pub mod Sound
pub mod Loop
pub mod Starts
pub mod Lifecycle
pub mod Trail
pub mod Finality
pub mod Verdicts
pub mod Queue

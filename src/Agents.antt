-- ===== src/Agents.antt =====
-- banking_ai/agents: the specialised agents and the orchestrator.
pub mod Base
pub mod Fraud
pub mod Kyc
pub mod Document
pub mod Loan
pub mod Notification
pub mod Audit
pub mod Retrieval
pub mod Summarization
pub mod Compliance
pub mod Orchestrator

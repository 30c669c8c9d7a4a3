-- ===== src/Services.antt =====
-- banking_ai/services: the use-cases, over the agents and the database.
pub mod Audit
pub mod Workflow
pub mod Seed
pub mod Storage
pub mod Documents
pub mod Observer
pub mod Users
pub mod AgentExecutor

-- ===== src/Ai.antt =====
-- ai/: what the agents ask of a model, and how a provider is chosen.
pub mod Types
pub mod Cost
pub mod VectorStore
pub mod Provider
pub mod Router
pub mod Factory
pub mod OpenaiCompatible

-- ===== src/Api.antt =====
-- banking_ai/api: how a request finds its caller, and the endpoints.
pub mod Deps
pub mod Workflows
pub mod Middleware
pub mod Documents
pub mod Search
pub mod Auth
pub mod Listings
pub mod Reads

-- ===== src/Core.antt =====
-- banking_ai/core: the settings, the error hierarchy, the access-control model and tokens.
pub mod Errors
pub mod Rbac
pub mod Config
pub mod Security
pub mod Logging

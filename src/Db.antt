-- ===== src/Db.antt =====
-- banking_ai/db: the enumerations, the rows and the session that the services work on.
pub mod Enums
pub mod Rows
pub mod Documents
pub mod Session
pub mod Engine

-- ===== src/Tests.antt =====
-- Small inputs that the theorems are applied to, and what the program does on them.
mod Access
mod Logins
mod Models
mod Requests
mod Telemetry
mod Workflows
mod Agents
mod Stores
mod Uploads

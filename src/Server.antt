-- ===== src/Server.antt =====
-- internal/server: the HTTP interface of the agent.
pub mod Handlers
pub mod Requests

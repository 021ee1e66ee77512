-- ===== src/Client.antt =====
-- internal/client/photonagent: the client of the agent's API.
pub mod Options
pub mod Progress
pub mod Requests
pub mod Agent
pub mod Exchanges
pub mod Uploads
pub mod SequentialUploads

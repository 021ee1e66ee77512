-- ===== src/Photon.antt =====
-- internal/photon: the child process that runs Photon.
pub mod Types
pub mod Server
pub mod Lifecycle
pub mod Rules

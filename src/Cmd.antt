-- ===== src/Cmd.antt =====
-- cmd: the two programs.
pub mod PhotonDbUpdater
pub mod Waiting
pub mod Flags
pub mod ParallelWait
pub mod SequentialWait
pub mod PhotonAgent
pub mod Wiring
pub mod AgentRuns
pub mod Serving
pub mod CommandLine
pub mod Variables

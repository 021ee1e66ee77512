-- ===== src/Updater.antt =====
-- internal/updater: the two strategies by which the database is updated.
pub mod Options
pub mod Dependencies
pub mod Sequential
pub mod LateRuns
pub mod Parallel
pub mod Entry
pub mod Restart
pub mod Cleanup
pub mod ParallelRuns
pub mod Preparation
pub mod ParallelSuccess
pub mod RemovalSuccess
pub mod SequentialSuccess
pub mod SequentialRuns
pub mod SequentialUpdate
pub mod AsyncRuns
pub mod Admission
pub mod Wired
pub mod Agreement
pub mod WiredRuns
pub mod Fetched
pub mod EndToEnd
pub mod SequentialEndToEnd
pub mod RestartSuccess

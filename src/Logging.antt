-- ===== src/Logging.antt =====
-- internal/logging: the loggers of the program, and the access log.
pub mod Setup
pub mod Middleware
pub mod AccessLog

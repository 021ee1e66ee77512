-- ===== src/Os.antt =====
-- The file system as the program uses it through Go's `os` and `path/filepath`.
pub mod Files
pub mod Calls
pub mod Laws
pub mod Frames
pub mod Success

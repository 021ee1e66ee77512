-- ===== src/Unarchiver.antt =====
-- internal/unarchiver: from a tar archive, compressed or not, to files.
pub mod Options
pub mod Extract
pub mod Frame
pub mod Contents
pub mod Fair
pub mod Writes
pub mod Success
pub mod Local
pub mod Refinement
pub mod Lawful

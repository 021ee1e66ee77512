-- ===== src/Photondata.antt =====
-- internal/photondata: the database on disk, where it comes from, and its replacement.
pub mod Types
pub mod Archive
pub mod ArchiveUrls
pub mod Layout
pub mod Replacement
pub mod Outcomes
pub mod Success
pub mod Exclusion
pub mod Migrator

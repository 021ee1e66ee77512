-- ===== src/Downloader.antt =====
-- internal/downloader: a file by HTTP, verified by its MD5 sum.
pub mod Fields
pub mod Download
pub mod Frame
pub mod Options
pub mod Progress
pub mod Sums
pub mod Verified
pub mod Success

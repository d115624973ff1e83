-- ===== src/Tests.antt =====
-- Concrete messages, files and engines, and the theorems applied to them.
pub mod Samples
pub mod Feeds
pub mod Books
pub mod Ladders
pub mod Rest
pub mod Live
pub mod Bench

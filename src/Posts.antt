-- ===== src/Posts.antt =====
-- The posts of apps/blog: their rows, their autosave in Redis and their version history.
pub mod Model
pub mod Lease
pub mod Store
pub mod Content
pub mod Repository
pub mod Versions
pub mod Retention
pub mod Writer
pub mod Validation
pub mod Autosave
pub mod Service
pub mod History
pub mod Sweepers
pub mod Categories
pub mod Labels

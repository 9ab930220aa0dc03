-- ===== src/Tests.antt =====
-- The theorems applied to small databases.
pub mod Session
pub mod Likes
pub mod Comments
pub mod Members
pub mod Login
pub mod Documents
pub mod Autosave
pub mod Posts

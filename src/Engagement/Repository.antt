-- ===== src/Engagement/Repository.antt =====
-- The queries of apps/blog/repositories/ that engagement uses, by repository.
pub mod Comments
pub mod Lists
pub mod Moderation
pub mod Likes
pub mod Posts

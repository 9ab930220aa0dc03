-- ===== src/Engagement.antt =====
-- Likes, comments and moderation of blog posts: apps/blog/services/_likes.py, _comments/ and
-- _comment_moderation.py, their repositories, and the counter triggers of the migration
-- alembic/versions/c28e5e7d2fc3_add_post_engagement.py.
pub mod Model
pub mod Triggers
pub mod Repository
pub mod Comments
pub mod Moderation
pub mod Likes
pub mod Requests
pub mod Counters

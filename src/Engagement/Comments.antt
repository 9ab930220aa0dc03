-- ===== src/Engagement/Comments.antt =====
-- PostCommentService (apps/blog/services/_comments/_service.py) and its helpers (_helpers.py).
-- nh3's `clean`, the standard library's `ip_address`, the clock and the new row's id are arguments.
pub mod Responses
pub mod Create
pub mod Own
pub mod Read
pub mod Pages
pub mod Replies
pub mod Tombstones
pub mod Changes
pub mod Anonymous

-- ===== src/Engagement/Repository/Posts.antt =====
-- PostRepository (apps/blog/repositories/_post.py): the queries that engagement uses.
use fastapi_base.Prelude.{
  ℕ, ◌==◌, Bool, ◌&&◌, Option, none, some, is_none, first, count, update, modify,
}
use fastapi_base.Engagement.Model.{Post, PostComment, Db, Action}
use fastapi_base.Engagement.Triggers.{is_post, contributes}
use fastapi_base.Engagement.Repository.Likes.{is_like_of}

-- PostRepository.find_by_id with include_deleted=False
unfoldable pub find_post : ℕ → ℕ → Db → Option Post
find_post workspace_id post_id db =
    first (λ p. p.id == post_id && p.workspace_id == workspace_id && is_none p.deleted_at) db.posts

unfoldable pub find_post_any_workspace : ℕ → Db → Option Post
find_post_any_workspace post_id db = first (is_post post_id) db.posts

abbrev counters_of : Option Post → Option (ℕ × ℕ)
counters_of none = none
counters_of (some p) = some (p.like_count, p.comment_count)

unfoldable pub find_cached_counters : ℕ → Db → Option (ℕ × ℕ)
find_cached_counters post_id db = counters_of (first (is_post post_id) db.posts)

abbrev pub contributes_to : ℕ → PostComment → Bool
contributes_to post_id c = c.post_id == post_id && contributes c

unfoldable pub scalar_counts_for_reconcile : ℕ → Db → ℕ × ℕ
scalar_counts_for_reconcile post_id db =
    (count (is_like_of post_id) db.likes, count (contributes_to post_id) db.comments)

abbrev pub with_counters : ℕ → ℕ → Post → Post
with_counters like_count comment_count p = record p {
  like_count = like_count;
  comment_count = comment_count;
}

unfoldable pub update_counters : ℕ → ℕ → ℕ → Action Unit
update_counters post_id like_count comment_count = modify (λ db. record db {
  posts = update (is_post post_id) (with_counters like_count comment_count) db.posts;
})

-- ===== src/Engagement/Likes.antt =====
-- PostLikeService (apps/blog/services/_likes.py).
pub mod Laws
use fastapi_base.Prelude.{ℕ, Bool, Option, gets, pure, raise_if, or_raise, ◌>>=◌, ◌>>◌}
use fastapi_base.Engagement.Model.{
  Post, PostLike, is_archived, Action, post_not_found, engagement_closed,
}
use fastapi_base.Engagement.Repository.Likes.{
  add_idempotent, remove_like, exists_for_user, count_for_post,
}
use fastapi_base.Engagement.Repository.Posts.{find_post}

pub record LikeState : Type 0 where
  pub post_id : ℕ
  pub like_count : ℕ
  pub liked_by_me : Bool

-- `_load_open_post` of PostLikeService
unfoldable pub load_likeable_post : ℕ → ℕ → Action Post
load_likeable_post workspace_id post_id = do
  found ← gets (find_post workspace_id post_id)
  post ← or_raise found post_not_found
  raise_if (is_archived post.status) engagement_closed
  pure post

unfoldable pub like_state_for : Post → ℕ → Action LikeState
like_state_for post user_id = do
  liked ← gets (exists_for_user post.id user_id)
  like_count ← gets (count_for_post post.id)
  pure (record { post_id = post.id; like_count = like_count; liked_by_me = liked })

abbrev pub like_row : ℕ → Post → ℕ → PostLike
like_row now post user_id = record {
  post_id = post.id;
  user_id = user_id;
  workspace_id = post.workspace_id;
  created_at = now;
}

unfoldable pub like : ℕ → ℕ → ℕ → ℕ → Action LikeState
unfolding load_likeable_post like_state_for
like now workspace_id post_id user_id = do
  post ← load_likeable_post workspace_id post_id
  add_idempotent (like_row now post user_id)
  like_state_for post user_id

unfoldable pub unlike : ℕ → ℕ → ℕ → Action LikeState
unfolding load_likeable_post like_state_for
unlike workspace_id post_id user_id = do
  post ← load_likeable_post workspace_id post_id
  remove_like post.id user_id
  like_state_for post user_id

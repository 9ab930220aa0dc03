-- ===== src/Engagement/Moderation.antt =====
-- PostCommentModerationService (apps/blog/services/_comment_moderation.py) and one tick of the
-- retention sweeper (apps/blog/sweepers/_comment_moderation.py). `check` is AccessService.check of
-- the caller for blog:moderate_comments.
use fastapi_base.Prelude.{
  ℕ, ◌*◌, ◌-◌, ◌==◌, String, Bool, false, ◌&&◌, ◌||◌, not, Option, none, some, List, gets, pure,
  raise_if, or_raise, ◌>>=◌, ◌>>◌, Result, ok, err,
}
use fastapi_base.Engagement.Model.{
  Post, PostComment, CommentState, same_state, Db, Error, Action, comment_not_found,
  comment_not_pending, access_denied, post_not_found,
}
use fastapi_base.Engagement.Repository.Comments.{find_comment}
use fastapi_base.Engagement.Repository.Lists.{list_pending as list_pending_rows}
use fastapi_base.Engagement.Repository.Moderation.{
  transition_state, mark_moderator_deleted, delete_stale_pending,
}
use fastapi_base.Engagement.Repository.Posts.{
  find_post_any_workspace, find_cached_counters, scalar_counts_for_reconcile, update_counters,
}

pub list_pending : ℕ → Option ℕ → ℕ → ℕ → Db → List PostComment × ℕ
unfolding list_pending_rows
list_pending workspace_id post_id limit offset db =
    list_pending_rows workspace_id post_id limit offset db

unfoldable pub require_existing_comment : ℕ → Action PostComment
require_existing_comment comment_id = do
  found ← gets (find_comment comment_id)
  or_raise found comment_not_found

unfoldable pub approve : ℕ → ℕ → ℕ → Option String → Action PostComment
unfolding require_existing_comment
approve now comment_id moderator_user_id reason = do
  comment ← require_existing_comment comment_id
  raise_if (not (same_state comment.state CommentState.pending)) comment_not_pending
  transition_state comment_id CommentState.approved moderator_user_id now reason

unfoldable pub reject : ℕ → ℕ → ℕ → Option String → Action PostComment
unfolding require_existing_comment
reject now comment_id moderator_user_id reason = do
  comment ← require_existing_comment comment_id
  raise_if (same_state comment.state CommentState.rejected) comment_not_pending
  transition_state comment_id CommentState.rejected moderator_user_id now reason

-- `post is None or post.author_id != current_user_id`, negated
abbrev pub is_author_of : ℕ → Option Post → Bool
is_author_of user_id none = false
is_author_of user_id (some post) = post.author_id == user_id

unfoldable pub moderator_delete : (ℕ → Bool) → ℕ → ℕ → ℕ → Option String → Action PostComment
unfolding require_existing_comment
moderator_delete check now comment_id current_user_id reason = do
  comment ← require_existing_comment comment_id
  post ← gets (find_post_any_workspace comment.post_id)
  raise_if (not (check current_user_id) && not (is_author_of current_user_id post)) access_denied
  mark_moderator_deleted comment_id current_user_id now reason

pub record EngagementCounters : Type 0 where
  pub like_count : ℕ
  pub comment_count : ℕ

pub record ReconcileResponse : Type 0 where
  pub post_id : ℕ
  pub before : EngagementCounters
  pub after : EngagementCounters
  pub drift_corrected : Bool

unfoldable pub reconcile_counters : ℕ → Action ReconcileResponse
reconcile_counters post_id = do
  found ← gets (find_cached_counters post_id)
  cached ← or_raise found post_not_found
  counted ← gets (scalar_counts_for_reconcile post_id)
  update_counters post_id counted.0 counted.1
  pure (record {
    post_id = post_id;
    before = record { like_count = cached.0; comment_count = cached.1 };
    after = record { like_count = counted.0; comment_count = counted.1 };
    drift_corrected = not (cached.0 == counted.0) || not (cached.1 == counted.1);
  })

-- A failed purge is rolled back and counts as none.
abbrev pub or_none_purged : Db → Result Error ℕ × Db → Result Error ℕ × Db
or_none_purged before (ok purged, db) = (ok purged, db)
or_none_purged before (err e, db) = (ok 0, before)

-- sweep_pending_comments_once with delete_stale_pending_comments; the clock is `now`
unfoldable pub sweep_pending_comments_once : ℕ → ℕ → ℕ → Action ℕ
sweep_pending_comments_once now pending_ttl_seconds batch_size db =
    or_none_purged db (delete_stale_pending (now - pending_ttl_seconds * 1000000) batch_size db)

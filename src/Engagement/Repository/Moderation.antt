-- ===== src/Engagement/Repository/Moderation.antt =====
-- PostCommentModerationRepository (apps/blog/repositories/_post_comment_moderation.py), and the
-- sweeper's DELETE of _post_comment.py.
use fastapi_base.Prelude.{
  ℕ, suc, String, Bool, ◌&&◌, Option, some, select, length, take, ltb, gets, ◌>>=◌, ◌>>◌, pure,
}
use fastapi_base.Engagement.Model.{PostComment, CommentState, same_state, Action}
use fastapi_base.Engagement.Triggers.{execute_change}
use fastapi_base.Engagement.Repository.Comments.{set_where_id, returning, ids_of, delete_cascade}

abbrev pub is_stale_pending : ℕ → PostComment → Bool
is_stale_pending cutoff c = same_state c.state CommentState.pending && ltb c.created_at cutoff

-- DELETE ... WHERE id IN (SELECT id ... LIMIT limit), and the replies of the deleted rows with them
unfoldable pub delete_stale_pending : ℕ → ℕ → Action ℕ
delete_stale_pending cutoff limit = do
  ids ← gets (λ db. ids_of (take limit (select (is_stale_pending cutoff) db.comments)))
  rows ← gets (λ db. length db.comments)
  delete_cascade (suc rows) ids
  pure (length ids)

abbrev pub moderated : ℕ → ℕ → Option String → PostComment → PostComment
moderated moderator_id moderated_at reason c = record c {
  moderated_by_user_id = some moderator_id;
  moderated_at = some moderated_at;
  moderation_reason = reason;
}

abbrev pub transitioned : CommentState → ℕ → ℕ → Option String → PostComment → PostComment
transitioned new_state moderator_id moderated_at reason c =
    record (moderated moderator_id moderated_at reason c) { state = new_state }

unfoldable pub transition_state : ℕ → CommentState → ℕ → ℕ → Option String → Action PostComment
transition_state comment_id new_state moderator_id moderated_at reason = do
  execute_change (set_where_id comment_id (transitioned new_state moderator_id moderated_at reason))
  returning comment_id

abbrev pub moderator_deleted : ℕ → ℕ → Option String → PostComment → PostComment
moderator_deleted moderator_id moderated_at reason c =
    record (moderated moderator_id moderated_at reason c) { deleted_at = some moderated_at }

unfoldable pub mark_moderator_deleted : ℕ → ℕ → ℕ → Option String → Action PostComment
mark_moderator_deleted comment_id moderator_id moderated_at reason = do
  execute_change (set_where_id comment_id (moderator_deleted moderator_id moderated_at reason))
  returning comment_id

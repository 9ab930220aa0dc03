-- ===== src/Engagement/Comments/Own.antt =====
-- PostCommentService.edit_own and delete_own: an author's own comment.
use fastapi_base.Prelude.{
  ℕ, ◌*◌, ◌-◌, ◌==◌, Bool, true, false, ◌&&◌, not, [], ◌∷◌, is_none, ltb, gets, pure, raise_if,
  or_raise, ◌>>=◌, ◌>>◌,
}
use fastapi_base.Engagement.Model.{
  Text, PostComment, Action, comment_not_found, anonymous_author_immutable,
  comment_author_forbidden, edit_window_expired,
}
use fastapi_base.Engagement.Repository.Comments.{
  find_comment, update_body, tombstone, hard_delete, has_approved_replies,
}
use fastapi_base.Engagement.Repository.Lists.{fetch_author_usernames}
use fastapi_base.Engagement.Comments.Responses.{PostCommentResponse, user_author, row_to_response}

-- the checks that `_load_editable_row_or_raise` and `delete_own` begin with
unfoldable pub load_own_row_or_raise : ℕ → ℕ → Action PostComment
load_own_row_or_raise comment_id current_user_id = do
  found ← gets (find_comment comment_id)
  row ← or_raise found comment_not_found
  raise_if (not (is_none row.deleted_at)) comment_not_found
  author ← or_raise row.author_user_id anonymous_author_immutable
  raise_if (not (author == current_user_id)) comment_author_forbidden
  pure row

module _ (post_comment_edit_window_seconds : ℕ) where
  -- `(now - row.created_at).total_seconds() > window`; a row from the future is inside the window
  abbrev pub is_expired : ℕ → PostComment → Bool
  is_expired now row = ltb (post_comment_edit_window_seconds * 1000000) (now - row.created_at)

  unfoldable pub load_editable_row_or_raise : ℕ → ℕ → ℕ → Action PostComment
  unfolding load_own_row_or_raise
  load_editable_row_or_raise now comment_id current_user_id = do
    row ← load_own_row_or_raise comment_id current_user_id
    raise_if (is_expired now row) edit_window_expired
    pure row

  unfoldable pub edit_own : (Text → Text) → ℕ → ℕ → ℕ → Text → Action PostCommentResponse
  unfolding load_editable_row_or_raise
  edit_own clean now comment_id current_user_id body = do
    load_editable_row_or_raise now comment_id current_user_id
    updated ← update_body comment_id (clean body) now
    usernames ← gets (fetch_author_usernames (current_user_id ∷ []))
    pure (row_to_response updated (user_author current_user_id usernames) 0)

abbrev pub remove_or_tombstone : Bool → ℕ → ℕ → Action Unit
remove_or_tombstone true now comment_id = do tombstone comment_id now; pure tt
remove_or_tombstone false now comment_id = hard_delete comment_id

unfoldable pub delete_own : ℕ → ℕ → ℕ → Action Unit
unfolding load_own_row_or_raise
delete_own now comment_id current_user_id = do
  row ← load_own_row_or_raise comment_id current_user_id
  replied ← gets (has_approved_replies comment_id)
  remove_or_tombstone (is_none row.parent_comment_id && replied) now comment_id

-- ===== src/Engagement/Comments/Read.antt =====
-- PostCommentService.list_top_level and list_replies.
use fastapi_base.Prelude.{
  ℕ, Bool, true, false, ◌||◌, not, none, some, List, [], ◌∷◌, map, is_none, get, gets, pure,
  raise_if, or_raise, ◌>>=◌, ◌>>◌, if◌then◌else◌,
}
use fastapi_base.Engagement.Model.{
  PostComment, CommentState, same_state, Db, Action, post_not_found, comment_not_found,
}
use fastapi_base.Engagement.Repository.Comments.{find_parent_metadata, ParentMetadata, ids_of}
use fastapi_base.Engagement.Repository.Lists.{
  fetch_author_usernames, list_top_level_approved, list_replies_approved, count_replies,
}
use fastapi_base.Engagement.Repository.Posts.{find_post}
use fastapi_base.Engagement.Comments.Responses.{
  PostCommentResponse, author_from_row, row_to_response, or_default,
}

pub record PaginatedResponse : Type 0 where
  pub items : List PostCommentResponse
  pub total : ℕ
  pub limit : ℕ
  pub offset : ℕ

abbrev pub author_ids : List PostComment → List ℕ
author_ids [] = []
author_ids (r ∷ rows) = elim r.author_user_id [
  | none ↦ author_ids rows
  | some i ↦ i ∷ author_ids rows
]

-- _build_comment_response_items
unfoldable pub build_comment_response_items :
    List PostComment → Bool → Db → List PostCommentResponse
build_comment_response_items rows include_reply_counts db =
    let usernames = fetch_author_usernames (author_ids rows) db in
    let reply_counts = if include_reply_counts then count_replies (ids_of rows) db else [] in
    map
      (λ r. row_to_response r (author_from_row r usernames) (or_default (get r.id reply_counts) 0))
      rows

unfoldable pub list_top_level : ℕ → ℕ → ℕ → ℕ → Action PaginatedResponse
list_top_level workspace_id post_id limit offset = do
  found ← gets (find_post workspace_id post_id)
  post ← or_raise found post_not_found
  listed ← gets (list_top_level_approved post.id limit offset)
  items ← gets (build_comment_response_items listed.0 true)
  pure (record { items = items; total = listed.1; limit = limit; offset = offset })

unfoldable pub check_top_level : ℕ → ParentMetadata → Action ℕ
check_top_level workspace_id (post_id, parent, state, deleted_at) = do
  raise_if (not (is_none parent)) comment_not_found
  raise_if (not (same_state state CommentState.approved) || not (is_none deleted_at))
      comment_not_found
  found ← gets (find_post workspace_id post_id)
  or_raise found comment_not_found
  pure post_id

unfoldable pub resolve_top_level_parent_post_id : ℕ → ℕ → Action ℕ
unfolding check_top_level
resolve_top_level_parent_post_id workspace_id parent_comment_id = do
  found ← gets (find_parent_metadata parent_comment_id)
  parent_meta ← or_raise found comment_not_found
  check_top_level workspace_id parent_meta

unfoldable pub list_replies : ℕ → ℕ → ℕ → ℕ → Action PaginatedResponse
unfolding resolve_top_level_parent_post_id
list_replies workspace_id parent_comment_id limit offset = do
  resolve_top_level_parent_post_id workspace_id parent_comment_id
  listed ← gets (list_replies_approved parent_comment_id limit offset)
  items ← gets (build_comment_response_items listed.0 false)
  pure (record { items = items; total = listed.1; limit = limit; offset = offset })

-- ===== src/Engagement/Comments/Create.antt =====
-- The four methods of PostCommentService that insert a comment, and their checks of the post and of
-- the parent comment.
use fastapi_base.Prelude.{
  ℕ, String, Bool, false, ◌||◌, not, Option, none, some, [], ◌∷◌, is_none, gets, pure, raise_if,
  or_raise, ◌>>=◌, ◌>>◌,
}
use fastapi_base.Engagement.Model.{
  Text, Post, PostComment, CommentState, same_state, is_archived, Action, post_not_found,
  engagement_closed, comment_not_found, nesting_too_deep, anonymous_comments_disabled,
}
use fastapi_base.Engagement.Triggers.{execute_insert}
use fastapi_base.Engagement.Repository.Comments.{find_parent_metadata, ParentMetadata}
use fastapi_base.Engagement.Repository.Lists.{fetch_author_usernames}
use fastapi_base.Engagement.Repository.Posts.{find_post}
use fastapi_base.Engagement.Comments.Responses.{
  PostCommentResponse, user_author, named_author, row_to_response,
}

-- the clock and the id that the model's defaults give to a new row
pub record Fresh : Type 0 where
  pub new_id : ℕ
  pub now : ℕ

-- CreateAnonymousCommentRequest
pub record AnonymousRequest : Type 0 where
  pub author_display_name : String
  pub author_email : Option String
  pub body : Text

-- the columns of `Workspace` that are read here
pub record Workspace : Type 0 where
  pub id : ℕ
  pub allow_anonymous_comments : Bool

unfoldable pub load_open_post : ℕ → ℕ → Action Post
load_open_post workspace_id post_id = do
  found ← gets (find_post workspace_id post_id)
  post ← or_raise found post_not_found
  raise_if (is_archived post.status) engagement_closed
  pure post

unfoldable pub check_parent : ℕ → ParentMetadata → Action Post
unfolding load_open_post
check_parent workspace_id (post_id, parent, state, deleted_at) = do
  raise_if (not (is_none parent)) nesting_too_deep
  raise_if (not (same_state state CommentState.approved) || not (is_none deleted_at))
      comment_not_found
  load_open_post workspace_id post_id

unfoldable pub validate_parent_and_get_post : ℕ → ℕ → Action Post
unfolding check_parent
validate_parent_and_get_post workspace_id parent_comment_id = do
  found ← gets (find_parent_metadata parent_comment_id)
  parent_meta ← or_raise found comment_not_found
  check_parent workspace_id parent_meta

-- PostCommentRepository.insert: the columns that are not given take the model's defaults
unfoldable pub insert : PostComment → Action PostComment
insert row = do execute_insert row; pure row

abbrev pub new_row : Fresh → Post → Option ℕ → Text → PostComment
new_row fresh post parent body = record {
  id = fresh.new_id;
  post_id = post.id;
  workspace_id = post.workspace_id;
  parent_comment_id = parent;
  author_user_id = none;
  author_display_name = none;
  author_email = none;
  author_ip = none;
  body = body;
  state = CommentState.pending;
  is_tombstoned = false;
  moderation_reason = none;
  moderated_by_user_id = none;
  moderated_at = none;
  edited_at = none;
  deleted_at = none;
  created_at = fresh.now;
}

abbrev pub authenticated_row : Fresh → Post → Option ℕ → ℕ → Text → PostComment
authenticated_row fresh post parent author_user_id body = record (new_row fresh post parent body) {
  author_user_id = some author_user_id;
  state = CommentState.approved;
}

module _ (clean : Text → Text) where
  respond_to_user : ℕ → PostComment → Action PostCommentResponse
  respond_to_user author_user_id row = do
    usernames ← gets (fetch_author_usernames (author_user_id ∷ []))
    pure (row_to_response row (user_author author_user_id usernames) 0)

  unfoldable pub create_authenticated : Fresh → ℕ → ℕ → ℕ → Text → Action PostCommentResponse
  unfolding load_open_post insert respond_to_user
  create_authenticated fresh workspace_id post_id author_user_id body = do
    post ← load_open_post workspace_id post_id
    row ← insert (authenticated_row fresh post none author_user_id (clean body))
    respond_to_user author_user_id row

  unfoldable pub create_reply_authenticated : Fresh → ℕ → ℕ → ℕ → Text → Action PostCommentResponse
  unfolding validate_parent_and_get_post insert respond_to_user
  create_reply_authenticated fresh workspace_id parent_comment_id author_user_id body = do
    post ← validate_parent_and_get_post workspace_id parent_comment_id
    row ← insert (authenticated_row fresh post (some parent_comment_id) author_user_id (clean body))
    respond_to_user author_user_id row

  module _ (ip_address : String → Option String) where
    -- _parse_ip
    parse_ip : Option String → Option String
    parse_ip none = none
    parse_ip (some value) = ip_address value

    abbrev pub anonymous_row :
        Fresh → Post → Option ℕ → AnonymousRequest → Option String → PostComment
    unfolding parse_ip
    anonymous_row fresh post parent request source_ip =
        record (new_row fresh post parent (clean request.body)) {
          author_display_name = some request.author_display_name;
          author_email = request.author_email;
          author_ip = parse_ip source_ip;
        }

    unfoldable pub create_anonymous :
        Fresh → Workspace → ℕ → AnonymousRequest → Option String → Action PostCommentResponse
    unfolding load_open_post insert parse_ip
    create_anonymous fresh workspace post_id request source_ip = do
      raise_if (not workspace.allow_anonymous_comments) anonymous_comments_disabled
      post ← load_open_post workspace.id post_id
      row ← insert (anonymous_row fresh post none request source_ip)
      pure (row_to_response row (named_author request.author_display_name) 0)

    unfoldable pub create_reply_anonymous :
        Fresh → Workspace → ℕ → AnonymousRequest → Option String → Action PostCommentResponse
    unfolding validate_parent_and_get_post insert parse_ip
    create_reply_anonymous fresh workspace parent_comment_id request source_ip = do
      raise_if (not workspace.allow_anonymous_comments) anonymous_comments_disabled
      post ← validate_parent_and_get_post workspace.id parent_comment_id
      row ← insert (anonymous_row fresh post (some parent_comment_id) request source_ip)
      pure (row_to_response row (named_author request.author_display_name) 0)

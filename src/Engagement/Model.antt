-- ===== src/Engagement/Model.antt =====
-- The rows and enums of apps/blog/models.py and apps/blog/enums.py that engagement reads and
-- writes, and the errors of apps/blog/exceptions.py that it raises. An id is a number, since ids
-- are only compared; an instant is a number of microseconds; a text is its list of code points.
use fastapi_base.Prelude.{
  ℕ, String, Bool, true, false, ◌&&◌, ◌||◌, not, Option, List, Call, is_none, leb, length, ◌==◌,
  any,
}
pub use fastapi_base.Prelude.{Text}

pub data PostStatus : Type 0 where
  draft published archived : PostStatus

pub data CommentState : Type 0 where
  pending approved rejected : CommentState

abbrev pub same_state : CommentState → CommentState → Bool
same_state CommentState.pending CommentState.pending = true
same_state CommentState.approved CommentState.approved = true
same_state CommentState.rejected CommentState.rejected = true
same_state _ _ = false

abbrev pub is_archived : PostStatus → Bool
is_archived PostStatus.archived = true
is_archived _ = false

-- the columns of `Post` that engagement uses
pub record Post : Type 0 where
  pub id : ℕ
  pub workspace_id : ℕ
  pub author_id : ℕ
  pub status : PostStatus
  pub deleted_at : Option ℕ
  pub like_count : ℕ
  pub comment_count : ℕ

pub record PostLike : Type 0 where
  pub post_id : ℕ
  pub user_id : ℕ
  pub workspace_id : ℕ
  pub created_at : ℕ

pub record PostComment : Type 0 where
  pub id : ℕ
  pub post_id : ℕ
  pub workspace_id : ℕ
  pub parent_comment_id : Option ℕ
  pub author_user_id : Option ℕ
  pub author_display_name : Option String
  pub author_email : Option String
  pub author_ip : Option String
  pub body : Text
  pub state : CommentState
  pub is_tombstoned : Bool
  pub moderation_reason : Option String
  pub moderated_by_user_id : Option ℕ
  pub moderated_at : Option ℕ
  pub edited_at : Option ℕ
  pub deleted_at : Option ℕ
  pub created_at : ℕ

pub record User : Type 0 where
  pub id : ℕ
  pub username : String

pub record Db : Type 0 where
  pub posts : List Post
  pub likes : List PostLike
  pub comments : List PostComment
  pub users : List User

pub data Error : Type 0 where
  post_not_found engagement_closed comment_not_found nesting_too_deep : Error
  anonymous_comments_disabled anonymous_author_immutable comment_author_forbidden : Error
  edit_window_expired comment_not_pending access_denied : Error
  -- a CHECK constraint of the table refused the row
  integrity_error : Error
  -- `scalar_one()` found no row
  no_result_found : Error

abbrev pub Action : Type 0 → Type 0
Action = Call Db Error

abbrev pub post_comment_body_max_length : ℕ
post_comment_body_max_length = 4000

-- `length(trim(body)) > 0`: PostgreSQL's trim takes spaces off
abbrev pub is_not_space : ℕ → Bool
is_not_space c = not (c == 32)

xor_present : Bool → Bool → Bool
xor_present true true = false
xor_present false false = false
xor_present _ _ = true

-- the CHECK constraints of the table post_comments
unfoldable pub satisfies_checks : PostComment → Bool
unfolding xor_present
satisfies_checks c =
    xor_present (is_none c.author_user_id) (is_none c.author_display_name)
    && any is_not_space c.body
    && leb (length c.body) post_comment_body_max_length
    && (not c.is_tombstoned || not (is_none c.deleted_at))
    && (is_none c.parent_comment_id || not c.is_tombstoned)

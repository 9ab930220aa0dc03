-- ===== src/Engagement/Repository/Comments.antt =====
-- PostCommentRepository (apps/blog/repositories/_post_comment.py): finding, editing, tombstoning
-- and deleting a comment.
pub mod Cascade
pub mod Orphans
use fastapi_base.Prelude.{
  ℕ, zero, suc, ◌==◌, Bool, true, false, ◌&&◌, ◌||◌, Option, none, some, List, [], ◌∷◌, map,
  if◌then◌else◌, is_num, select, first, any, length, gets, or_raise, ◌>>=◌, ◌>>◌, pure,
}
use fastapi_base.Engagement.Model.{Text, PostComment, CommentState, Db, Action, no_result_found}
use fastapi_base.Engagement.Triggers.{Change, keep, set, remove, execute_change, contributes}

abbrev pub has_id : ℕ → PostComment → Bool
has_id comment_id c = c.id == comment_id

-- find_by_id of both comment repositories: soft-deleted rows are found too
unfoldable pub find_comment : ℕ → Db → Option PostComment
find_comment comment_id db = first (has_id comment_id) db.comments

-- `.returning(PostComment)` and `scalar_one()`
abbrev pub returning : ℕ → Action PostComment
returning comment_id = do
  found ← gets (λ db. first (has_id comment_id) db.comments)
  or_raise found no_result_found

-- UPDATE post_comments SET f WHERE id = comment_id
unfoldable pub set_where_id : ℕ → (PostComment → PostComment) → PostComment → Change
set_where_id comment_id f c = if c.id == comment_id then set (f c) else keep

abbrev pub edited : Text → ℕ → PostComment → PostComment
edited body edited_at c = record c { body = body; edited_at = some edited_at }

unfoldable pub update_body : ℕ → Text → ℕ → Action PostComment
update_body comment_id body edited_at = do
  execute_change (set_where_id comment_id (edited body edited_at))
  returning comment_id

-- the code points of "[deleted]"
abbrev pub deleted_body : Text
deleted_body = 91 ∷ 100 ∷ 101 ∷ 108 ∷ 101 ∷ 116 ∷ 101 ∷ 100 ∷ 93 ∷ []

abbrev pub tombstoned : ℕ → PostComment → PostComment
tombstoned deleted_at c = record c {
  deleted_at = some deleted_at;
  is_tombstoned = true;
  body = deleted_body;
}

unfoldable pub tombstone : ℕ → ℕ → Action PostComment
tombstone comment_id deleted_at = do
  execute_change (set_where_id comment_id (tombstoned deleted_at))
  returning comment_id

abbrev pub is_live_reply_of : ℕ → PostComment → Bool
is_live_reply_of parent_id c = is_num c.parent_comment_id parent_id && contributes c

unfoldable pub has_approved_replies : ℕ → Db → Bool
has_approved_replies parent_id db = any (is_live_reply_of parent_id) db.comments

-- `id IN ids` and `parent_comment_id IN ids`
abbrev pub is_one_of : List ℕ → Option ℕ → Bool
is_one_of [] o = false
is_one_of (i ∷ is) o = is_num o i || is_one_of is o

abbrev pub ids_of : List PostComment → List ℕ
ids_of = map (λ c. c.id)

unfoldable pub remove_ids : List ℕ → PostComment → Change
remove_ids ids c = if is_one_of ids (some c.id) then remove else keep

abbrev pub children_of : List ℕ → List PostComment → List PostComment
children_of ids = select (λ c. is_one_of ids c.parent_comment_id)

-- ON DELETE CASCADE of fk_post_comments_parent_comment_id: the rows go, then their replies, and so
-- on. A round after the first that deletes no row is followed by rounds that delete none, so one round
-- more than there are rows is enough.
unfoldable pub delete_cascade : ℕ → List ℕ → Action Unit
delete_cascade zero ids = pure tt
delete_cascade (suc fuel) ids = do
  children ← gets (λ db. ids_of (children_of ids db.comments))
  execute_change (remove_ids ids)
  delete_cascade fuel children

unfoldable pub hard_delete : ℕ → Action Unit
hard_delete comment_id db = delete_cascade (suc (length db.comments)) (comment_id ∷ []) db

-- (post_id, parent_comment_id, state, deleted_at)
abbrev pub ParentMetadata : Type 0
ParentMetadata = ℕ × Option ℕ × CommentState × Option ℕ

abbrev pub metadata_of : PostComment → ParentMetadata
metadata_of c = (c.post_id, c.parent_comment_id, c.state, c.deleted_at)

abbrev map_metadata : Option PostComment → Option ParentMetadata
map_metadata none = none
map_metadata (some c) = some (metadata_of c)

unfoldable pub find_parent_metadata : ℕ → Db → Option ParentMetadata
find_parent_metadata parent_id db = map_metadata (first (has_id parent_id) db.comments)

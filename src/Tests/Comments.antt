-- ===== src/Tests/Comments.antt =====
-- A comment with a reply, and requests on both.
use fastapi_base.Prelude.{
  any, arith, ◌≤◌, ◌*◌, ◌-◌, ◌==◌, update, All, IsSorted, leb, length, if◌then◌else◌, ℕ, ◌+◌, ◌≡◌,
  refl, Bool, true, false, none, some, [], ◌∷◌, Text, err, is_none,
}
use fastapi_base.Engagement.Model.{Post, PostComment, CommentState, Db, comment_not_found}
use fastapi_base.Engagement.Triggers.{
  after_insert, after_change, execute_insert, execute_change, all_pass, rows_after,
}
use fastapi_base.Engagement.Model.{satisfies_checks}
use fastapi_base.Engagement.Repository.Comments.{
  find_comment, has_approved_replies, set_where_id, find_parent_metadata, update_body, tombstone,
  hard_delete, has_id,
}
use fastapi_base.Engagement.Repository.Comments.Orphans.{HasParents, hard_delete-HasParents}
use fastapi_base.Engagement.Repository.Lists.{list_top_level_approved, list_replies_approved}
use fastapi_base.Engagement.Repository.Posts.{find_post}
use fastapi_base.Engagement.Comments.Create.{
  Fresh, authenticated_row, create_reply_authenticated, validate_parent_and_get_post, check_parent,
  load_open_post,
}
use fastapi_base.Engagement.Comments.Own.{
  edit_own, delete_own, load_own_row_or_raise, load_editable_row_or_raise,
}
use fastapi_base.Engagement.Comments.Read.{list_replies}
use fastapi_base.Engagement.Comments.Pages.{
  IsVisible, count_visible, list_top_level_approved-IsPage,
}
use fastapi_base.Engagement.Comments.Replies.{IsAnswerable, create_reply-ok}
use fastapi_base.Engagement.Comments.Tombstones.{list_replies-delete_own}
use fastapi_base.Engagement.Comments.Create.{Workspace, AnonymousRequest, create_anonymous}
use fastapi_base.Engagement.Comments.Anonymous.{create_anonymous-hidden}
use fastapi_base.Engagement.Comments.Changes.{edit_own-ok}
use fastapi_base.Tests.Likes.{a_comment, a_blog}

abbrev a_reply : PostComment
a_reply = record a_comment { id = 11; parent_comment_id = some 10; author_user_id = some 6 }

abbrev a_pending : PostComment
a_pending = record a_comment { id = 12; state = CommentState.pending }

abbrev a_thread : Db
a_thread = record a_blog { comments = a_comment ∷ a_reply ∷ a_pending ∷ [] }

abbrev a_moment : Fresh
a_moment = record { new_id = 20; now = 2000000 }

abbrev as_is : Text → Text
as_is body = body

abbrev nobody : ℕ → Bool
nobody user_id = false

create_reply-ok_example :
    (post : Post) × (parent : PostComment) × IsAnswerable 7 10 a_thread post parent
    × ((create_reply_authenticated as_is a_moment 7 10 6 (121 ∷ []) a_thread).1
        ≡ after_insert (authenticated_row a_moment post (some 10) 6 (121 ∷ [])) a_thread)
unfolding create_reply_authenticated validate_parent_and_get_post check_parent load_open_post
    find_parent_metadata find_post execute_insert satisfies_checks
create_reply-ok_example = create_reply-ok as_is a_moment 7 10 6 (121 ∷ []) a_thread refl

list_replies-delete_own_example :
    (list_replies 7 10 20 0 (delete_own 3000000 10 4 a_thread).1).0 ≡ err comment_not_found
unfolding delete_own load_own_row_or_raise find_comment has_approved_replies tombstone
    execute_change all_pass set_where_id rows_after after_change satisfies_checks
list_replies-delete_own_example =
    list_replies-delete_own 3000000 10 4 7 20 0 a_thread a_comment refl refl refl refl

edit_own-ok_example :
    (row : PostComment) × (find_comment 10 a_thread ≡ some row)
    × (is_none row.deleted_at ≡ true)
    × (row.author_user_id ≡ some 4)
    × (3000000 ≤ row.created_at + 900 * 1000000)
    × ((edit_own 900 as_is 3000000 10 4 (121 ∷ []) a_thread).1 ≡ record a_thread {
      comments =
          update
            (λ c. c.id == 10)
            (λ c. record c { body = 121 ∷ []; edited_at = some 3000000 })
            a_thread.comments;
    })
unfolding edit_own load_editable_row_or_raise load_own_row_or_raise find_comment update_body
    execute_change all_pass set_where_id rows_after after_change satisfies_checks
edit_own-ok_example = edit_own-ok 900 as_is 3000000 10 4 (121 ∷ []) a_thread refl

abbrev a_guest : AnonymousRequest
a_guest = record { author_display_name = "guest"; author_email = none; body = 121 ∷ [] }

abbrev an_open_workspace : Workspace
an_open_workspace = record { id = 7; allow_anonymous_comments = true }

create_anonymous-hidden_example :
    let db' =
      (create_anonymous as_is
        (λ ip. some ip)
        a_moment
        an_open_workspace
        1
        a_guest
        none
        a_thread).1 in
    (list_top_level_approved 1 20 0 db' ≡ list_top_level_approved 1 20 0 a_thread)
    × (list_replies_approved 1 20 0 db' ≡ list_replies_approved 1 20 0 a_thread)
    × (db'.posts ≡ a_thread.posts)
unfolding create_anonymous load_open_post find_post execute_insert satisfies_checks
create_anonymous-hidden_example =
    create_anonymous-hidden as_is (λ ip. some ip) a_moment an_open_workspace 1 a_guest none a_thread
      refl 1 20 0

list_top_level_approved-IsPage_example :
    let (rows, total) = list_top_level_approved 1 20 0 a_thread in
    let left = count_visible 1 a_thread.comments - 0 in
    All (IsVisible 1) rows
    × IsSorted (λ c d. leb d.created_at c.created_at) rows
    × (length rows ≡ (if leb 20 left then 20 else left))
    × (total ≡ count_visible 1 a_thread.comments)
list_top_level_approved-IsPage_example = list_top_level_approved-IsPage 1 20 0 a_thread

a_thread-HasParents : HasParents a_thread.comments
a_thread-HasParents id parent h = ground arith

hard_delete-HasParents_example :
    let rows = (hard_delete 10 a_thread).1.comments in
    (any (has_id 10) rows ≡ false) × HasParents rows × (any (has_id 12) rows ≡ true)
hard_delete-HasParents_example =
    hard_delete-HasParents 10 12 a_thread a_thread-HasParents refl refl refl

-- ===== src/Engagement/Comments/Replies.antt =====
-- When a reply is accepted (create_reply_authenticated), and what deleting a comment that has replies
-- does to them.
use fastapi_base.Prelude.{
  ℕ, ◌≡◌, refl, true, false, some, is_none, Bool-cases, Option-cases, inl, inr, ok, first, bind-ok,
  Keeps, keeps_rules,
}
use fastapi_base.Engagement.Model.{
  Text, Post, PostComment, Db, is_archived, same_state, CommentState, satisfies_checks,
}
use fastapi_base.Engagement.Triggers.{contributes, after_insert, execute_insert}
use fastapi_base.Engagement.Repository.Comments.{
  find_comment, has_id, find_parent_metadata, metadata_of,
}
use fastapi_base.Engagement.Repository.Posts.{find_post}
use fastapi_base.Engagement.Comments.Responses.{PostCommentResponse}
use fastapi_base.Engagement.Comments.Create.{
  Fresh, authenticated_row, load_open_post, check_parent, validate_parent_and_get_post,
  create_reply_authenticated,
}

-- A comment that may be answered: approved, not deleted, no reply itself, and on a post of the
-- workspace that is not archived.
pub record IsAnswerable (workspace_id parent_id : ℕ) (db : Db) (post : Post) (parent : PostComment)
    : Type 0 where
  pub found : find_comment parent_id db ≡ some parent
  pub top_level : is_none parent.parent_comment_id ≡ true
  pub visible : contributes parent ≡ true
  pub on_post : find_post workspace_id parent.post_id db ≡ some post
  pub open_post : is_archived post.status ≡ false

load_open_post-ok :
    (workspace_id post_id : ℕ) (db : Db) {post : Post}
    → (load_open_post workspace_id post_id db).0 ≡ ok post
    → (find_post workspace_id post_id db ≡ some post) × (is_archived post.status ≡ false)
unfolding load_open_post
load_open_post-ok workspace_id post_id db {post} h =
    elim (Option-cases (find_post workspace_id post_id db)) [
      | inl e ↦ cc (rw e at h)
      | inr (p, e) ↦ elim (Bool-cases (is_archived p.status)) [
        | inl a ↦ cc (rw (e, a) at h)
        | inr a ↦ let same : p ≡ post = cc (rw (e, a) at h) in (rw⁻¹ same e, rw⁻¹ same a)
      ]
    ]

check_parent-ok :
    (workspace_id parent_id : ℕ) (db : Db) (parent : PostComment) {post : Post}
    → find_comment parent_id db ≡ some parent
    → (check_parent workspace_id (metadata_of parent) db).0 ≡ ok post
    → IsAnswerable workspace_id parent_id db post parent
unfolding check_parent
check_parent-ok workspace_id parent_id db parent {post} found h =
    elim (Bool-cases (is_none parent.parent_comment_id)) [
      | inr t ↦ cc (rw t at h)
      | inl t ↦ elim (Bool-cases (same_state parent.state CommentState.approved)) [
        | inr s ↦ cc (rw (t, s) at h)
        | inl s ↦ elim (Bool-cases (is_none parent.deleted_at)) [
          | inr d ↦ cc (rw (t, s, d) at h)
          | inl d ↦
              let loaded =
                load_open_post-ok workspace_id parent.post_id db {post = post}
                  (rw (t, s, d) at h) in
              record {
                found = found;
                top_level = t;
                visible = rw (s, d) refl;
                on_post = loaded.0;
                open_post = loaded.1;
              }
        ]
      ]
    ]

validate_parent-ok :
    (workspace_id parent_id : ℕ) (db : Db) {post : Post}
    → (validate_parent_and_get_post workspace_id parent_id db).0 ≡ ok post
    → (parent : PostComment) × IsAnswerable workspace_id parent_id db post parent
unfolding validate_parent_and_get_post find_parent_metadata find_comment
validate_parent-ok workspace_id parent_id db {post} h =
    elim (Option-cases (first (has_id parent_id) db.comments)) [
      | inl e ↦ cc (rw e at h)
      | inr (parent, e) ↦
          (parent, check_parent-ok workspace_id parent_id db parent {post = post} e (rw e at h))
    ]

validate_parent-database :
    (workspace_id parent_id : ℕ) (db : Db)
    → (validate_parent_and_get_post workspace_id parent_id db).1 ≡ db
unfolding validate_parent_and_get_post
validate_parent-database workspace_id parent_id db =
    let keeps : Keeps (λ d. d ≡ db) (validate_parent_and_get_post workspace_id parent_id) =
      search keeps_rules depth 14 in
    keeps.at db refl

-- An accepted reply answers an approved, undeleted comment that is no reply itself, on a post of the
-- workspace that is not archived; the new row belongs to that post and to that comment, and nothing
-- else of the database changes but the counter of comments.
pub create_reply-ok :
    (clean : Text → Text) (fresh : Fresh) (workspace_id parent_id user_id : ℕ) (body : Text)
    (db : Db) {r : PostCommentResponse}
    → (create_reply_authenticated clean fresh workspace_id parent_id user_id body db).0 ≡ ok r
    → (post : Post) × (parent : PostComment) × IsAnswerable workspace_id parent_id db post parent
      × ((create_reply_authenticated clean fresh workspace_id parent_id user_id body db).1
          ≡ after_insert (authenticated_row fresh post (some parent_id) user_id (clean body)) db)
unfolding create_reply_authenticated execute_insert
create_reply-ok clean fresh workspace_id parent_id user_id body db h =
    let (post, valid) = bind-ok (validate_parent_and_get_post workspace_id parent_id) _ db h in
    let (parent, answerable) = validate_parent-ok workspace_id parent_id db valid in
    let row = authenticated_row fresh post (some parent_id) user_id (clean body) in
    elim (Bool-cases (satisfies_checks row)) [
      | inr c ↦ cc (rw (valid, c) at h)
      | inl c ↦ (
        post,
        parent,
        answerable,
        rw (valid, validate_parent-database workspace_id parent_id db, c) refl,
      )
    ]

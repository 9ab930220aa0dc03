-- ===== src/Engagement/Comments/Changes.antt =====
-- Who may change a comment, and what then changes: edit_own, approve, reject and moderator_delete.
use fastapi_base.Prelude.{
  List, [], ◌∷◌, ◌+◌, ◌*◌, ◌≤◌, ◌==◌, ◌∙◌, none, false, same_num, update, map_same, arith, ℕ, ◌≡◌,
  refl, true, false, String, Option, some, is_none, Bool-cases, Option-cases, or_raise-state,
  bind-ok, ◌>>◌, Keeps, keeps_rules, inl, inr, ok,
}
use fastapi_base.Engagement.Model.{
  Post, Text, PostComment, CommentState, same_state, Db, Action, no_result_found,
}
use fastapi_base.Engagement.Triggers.{
  all_pass, after_change, execute_change, rows_after, fire_all, fire, when_updated,
}
use fastapi_base.Engagement.Repository.Comments.{
  find_comment, set_where_id, edited, update_body, returning,
}
use fastapi_base.Engagement.Repository.Moderation.{transitioned, transition_state}
use fastapi_base.Engagement.Moderation.{require_existing_comment, approve}
use fastapi_base.Engagement.Comments.Responses.{PostCommentResponse}
use fastapi_base.Engagement.Comments.Own.{
  is_expired, load_own_row_or_raise, load_editable_row_or_raise, edit_own,
}
use fastapi_base.Engagement.Comments.Tombstones.{load_own_row-ok}

-- An update of one row that returned has written it, and changed nothing else.
abbrev set_row : ℕ → (PostComment → PostComment) → Action PostComment
set_row comment_id f = do execute_change (set_where_id comment_id f); returning comment_id

set_row-ok :
    (comment_id : ℕ) (f : PostComment → PostComment) (db : Db) {row : PostComment}
    → (set_row comment_id f db).0 ≡ ok row
    → (set_row comment_id f db).1 ≡ after_change (set_where_id comment_id f) db
unfolding execute_change
set_row-ok comment_id f db h =
    elim (Bool-cases (all_pass (set_where_id comment_id f) db.comments)) [
      | inr e ↦ cc (rw e at h)
      | inl e ↦
          rw e (or_raise-state _ no_result_found (after_change (set_where_id comment_id f) db))
    ]

rows_after-set :
    (comment_id : ℕ) (f : PostComment → PostComment) (cs : List PostComment)
    → rows_after (set_where_id comment_id f) cs ≡ update (λ c. c.id == comment_id) f cs
unfolding rows_after set_where_id
rows_after-set comment_id f [] = refl
rows_after-set comment_id f (c ∷ cs) = elim (Bool-cases (c.id == comment_id)) [
  | inl e ↦ rw (e, rows_after-set comment_id f cs) refl
  | inr e ↦ rw (e, rows_after-set comment_id f cs) refl
]

-- The counters do not see an update that keeps the state and the deletion.
fire_all-kept :
    (comment_id : ℕ) (f : PostComment → PostComment) (cs : List PostComment) (p : Post)
    → ((c : PostComment) → when_updated c (f c) ≡ false)
    → fire_all (set_where_id comment_id f) cs p ≡ p
unfolding fire_all set_where_id fire
fire_all-kept comment_id f [] p kept = refl
fire_all-kept comment_id f (c ∷ cs) p kept =
    let rest = fire_all-kept comment_id f cs p kept in
    elim (Bool-cases (c.id == comment_id)) [ inl e ↦ rw (e, kept c) rest | inr e ↦ rw e rest ]

same_state_refl : (state : CommentState) → same_state state state ≡ true
same_state_refl CommentState.pending = refl
same_state_refl CommentState.approved = refl
same_state_refl CommentState.rejected = refl

same_num_refl : (n : Option ℕ) → same_num n n ≡ true
same_num_refl none = refl
same_num_refl (some n) = ground arith

edited-unseen :
    (body : Text) (now : ℕ) (c : PostComment) → when_updated c (edited body now c) ≡ false
edited-unseen body now c = rw (same_state_refl c.state, same_num_refl c.deleted_at) refl

-- What an edit leaves: the posts, and with them the counters, as they are.
after_change-edited :
    (comment_id : ℕ) (body : Text) (now : ℕ) (db : Db)
    → after_change (set_where_id comment_id (edited body now)) db
      ≡ record db { comments = update (λ c. c.id == comment_id) (edited body now) db.comments }
unfolding after_change
after_change-edited comment_id body now db =
    rw
      (
        rows_after-set comment_id (edited body now) db.comments,
        map_same _ db.posts (λ p.
            fire_all-kept comment_id (edited body now) db.comments p (edited-unseen body now)),
      )
      refl

load_editable_row-database :
    (window now comment_id user_id : ℕ) (db : Db)
    → (load_editable_row_or_raise window now comment_id user_id db).1 ≡ db
unfolding load_editable_row_or_raise load_own_row_or_raise
load_editable_row-database window now comment_id user_id db =
    let keeps : Keeps (λ d. d ≡ db) (load_editable_row_or_raise window now comment_id user_id) =
      search keeps_rules depth 16 in
    keeps.at db refl

load_editable_row-ok :
    (window now comment_id user_id : ℕ) (db : Db) {row : PostComment}
    → (load_editable_row_or_raise window now comment_id user_id db).0 ≡ ok row
    → ((load_own_row_or_raise comment_id user_id db).0 ≡ ok row)
      × (is_expired window now row ≡ false)
unfolding load_editable_row_or_raise
load_editable_row-ok window now comment_id user_id db {row} h =
    let (own, loaded) = bind-ok (load_own_row_or_raise comment_id user_id) _ db h in
    elim (Bool-cases (is_expired window now own)) [
      | inl e ↦ cc (rw (loaded, e) at h)
      | inr e ↦ let same : own ≡ row = cc (rw (loaded, e) at h) in rw⁻¹ same (loaded, e)
    ]

-- An edit that is accepted is of an undeleted comment of the caller that is not older than the edit
-- window, given in seconds; it sets the body, cleaned, and the time of the edit in the row of this
-- comment, and leaves every other row, the posts with their counters, the likes and the users as they
-- were.
pub edit_own-ok :
    (window : ℕ) (clean : Text → Text) (now comment_id user_id : ℕ) (body : Text) (db : Db)
    {r : PostCommentResponse}
    → (edit_own window clean now comment_id user_id body db).0 ≡ ok r
    → (row : PostComment) × (find_comment comment_id db ≡ some row)
      × (is_none row.deleted_at ≡ true)
      × (row.author_user_id ≡ some user_id)
      × (now ≤ row.created_at + window * 1000000)
      × ((edit_own window clean now comment_id user_id body db).1 ≡ record db {
        comments =
            update
              (λ c. c.id == comment_id)
              (λ c. record c { body = clean body; edited_at = some now })
              db.comments;
      })
unfolding edit_own update_body
edit_own-ok window clean now comment_id user_id body db h =
    let (row, loaded) = bind-ok (load_editable_row_or_raise window now comment_id user_id) _ db h in
    let (own, young) = load_editable_row-ok window now comment_id user_id db loaded in
    let (found, live, mine) = load_own_row-ok comment_id user_id db own in
    let state = load_editable_row-database window now comment_id user_id db in
    let (row', changed) =
      bind-ok (update_body comment_id (clean body) now) _ db (rw (loaded, state) at h) in
    (
      row,
      found,
      live,
      mine,
      ground (arith, young),
      rw (loaded, state, changed)
          (set_row-ok comment_id (edited (clean body) now) db changed
            ∙ after_change-edited comment_id (clean body) now db),
    )

-- An approval that is accepted is of a comment that was pending; it marks the comment approved, with
-- the moderator, the time and the reason, and changes nothing else but the counter of comments.
approve-ok :
    (now comment_id moderator_id : ℕ) (reason : Option String) (db : Db) {r : PostComment}
    → (approve now comment_id moderator_id reason db).0 ≡ ok r
    → (row : PostComment) × (find_comment comment_id db ≡ some row)
      × (same_state row.state CommentState.pending ≡ true)
      × ((approve now comment_id moderator_id reason db).1
          ≡ after_change
              (set_where_id comment_id (transitioned CommentState.approved moderator_id now reason))
              db)
unfolding approve require_existing_comment transition_state
approve-ok now comment_id moderator_id reason db h =
    elim (Option-cases (find_comment comment_id db)) [
      | inl e ↦ cc (rw e at h)
      | inr (row, e) ↦ elim (Bool-cases (same_state row.state CommentState.pending)) [
        | inr s ↦ cc (rw (e, s) at h)
        | inl s ↦ (
          row,
          e,
          s,
          rw (e, s)
              (set_row-ok comment_id (transitioned CommentState.approved moderator_id now reason) db
                (rw (e, s) at h)),
        )
      ]
    ]

-- ===== src/Engagement/Comments/Tombstones.antt =====
-- What delete_own does to a comment that has replies, and to the pages of its replies.
use fastapi_base.Prelude.{
  ℕ, ◌==◌, ◌≡◌, refl, ◌∙◌, true, some, List, [], ◌∷◌, is_none, arith, Bool-cases, Option-cases,
  or_raise-state, bind-ok, Keeps, keeps_rules, inl, inr, ok, err, if◌then◌else◌, first_satisfies,
  update, first-map, update-eq-map,
}
use fastapi_base.Engagement.Model.{
  PostComment, CommentState, same_state, Db, comment_not_found, no_result_found,
}
use fastapi_base.Engagement.Triggers.{rows_after, all_pass, execute_change, after_change}
use fastapi_base.Engagement.Repository.Comments.{
  find_comment, has_id, set_where_id, tombstone, tombstoned, has_approved_replies,
  find_parent_metadata,
}
use fastapi_base.Engagement.Comments.Own.{delete_own, load_own_row_or_raise, remove_or_tombstone}
use fastapi_base.Engagement.Comments.Read.{
  list_replies, resolve_top_level_parent_post_id, check_top_level,
}

pub rows_after-update :
    (comment_id : ℕ) (f : PostComment → PostComment) (cs : List PostComment)
    → rows_after (set_where_id comment_id f) cs ≡ update (has_id comment_id) f cs
unfolding rows_after set_where_id
rows_after-update comment_id f [] = refl
rows_after-update comment_id f (c ∷ cs) = elim (Bool-cases (c.id == comment_id)) [
  | inl e ↦ rw (e, rows_after-update comment_id f cs) refl
  | inr e ↦ rw (e, rows_after-update comment_id f cs) refl
]

-- An update of one row that keeps ids is seen by a look-up.
pub find_comment-update :
    (comment_id : ℕ) (f : PostComment → PostComment) (db : Db) (c : PostComment)
    → ((d : PostComment) → (f d).id ≡ d.id)
    → find_comment comment_id db ≡ some c
    → find_comment comment_id (after_change (set_where_id comment_id f) db) ≡ some (f c)
unfolding find_comment after_change
find_comment-update comment_id f db c same found =
    let g : PostComment → PostComment = λ d. if has_id comment_id d then f d else d in
    let here : has_id comment_id c ≡ true = first_satisfies (has_id comment_id) db.comments found in
    rw (rows_after-update comment_id f db.comments, update-eq-map (has_id comment_id) f db.comments)
      (first-map (has_id comment_id) g db.comments c (λ y. ground (arith, same y)) found
        ∙ rw here refl)

tombstone-database :
    (comment_id now : ℕ) (db : Db)
    → all_pass (set_where_id comment_id (tombstoned now)) db.comments ≡ true
    → (tombstone comment_id now db).1 ≡ after_change (set_where_id comment_id (tombstoned now)) db
unfolding tombstone execute_change
tombstone-database comment_id now db h =
    rw h (
      or_raise-state _ no_result_found (after_change (set_where_id comment_id (tombstoned now)) db))

-- A tombstoned row passed the CHECK constraints of the table.
tombstone-ok :
    (comment_id now : ℕ) (db : Db) {row : PostComment}
    → (tombstone comment_id now db).0 ≡ ok row
    → all_pass (set_where_id comment_id (tombstoned now)) db.comments ≡ true
unfolding tombstone execute_change
tombstone-ok comment_id now db h =
    elim (Bool-cases (all_pass (set_where_id comment_id (tombstoned now)) db.comments)) [
      | inl e ↦ e
      | inr e ↦ cc (rw e at h)
    ]

pub load_own_row-database :
    (comment_id user_id : ℕ) (db : Db) → (load_own_row_or_raise comment_id user_id db).1 ≡ db
unfolding load_own_row_or_raise
load_own_row-database comment_id user_id db =
    let keeps : Keeps (λ d. d ≡ db) (load_own_row_or_raise comment_id user_id) =
      search keeps_rules depth 14 in
    keeps.at db refl

-- The row that its author may change: it is not deleted, and it is the caller's.
pub load_own_row-ok :
    (comment_id user_id : ℕ) (db : Db) {row : PostComment}
    → (load_own_row_or_raise comment_id user_id db).0 ≡ ok row
    → (find_comment comment_id db ≡ some row)
      × (is_none row.deleted_at ≡ true)
      × (row.author_user_id ≡ some user_id)
unfolding load_own_row_or_raise
load_own_row-ok comment_id user_id db {row} h = elim (Option-cases (find_comment comment_id db)) [
  | inl e ↦ cc (rw e at h)
  | inr (c, e) ↦ elim (Bool-cases (is_none c.deleted_at)) [
    | inr d ↦ cc (rw (e, d) at h)
    | inl d ↦ elim (Option-cases c.author_user_id) [
      | inl a ↦ cc (rw (e, d, a) at h)
      | inr (u, a) ↦ elim (Bool-cases (u == user_id)) [
        | inr w ↦ cc (rw (e, d, a, w) at h)
        | inl w ↦
            let same : c ≡ row = cc (rw (e, d, a, w) at h) in
            let mine : u ≡ user_id = ground (arith, w) in rw⁻¹ same (e, d, rw⁻¹ mine a)
      ]
    ]
  ]
]

-- A tombstoned comment has no page of replies.
list_replies_of_tombstone :
    (workspace_id comment_id limit offset now : ℕ) (db : Db) (c : PostComment)
    → find_comment comment_id db ≡ some (tombstoned now c)
    → (list_replies workspace_id comment_id limit offset db).0 ≡ err comment_not_found
unfolding list_replies resolve_top_level_parent_post_id check_top_level find_parent_metadata
    find_comment
list_replies_of_tombstone workspace_id comment_id limit offset now db c found =
    elim (Bool-cases (is_none c.parent_comment_id)) [
      | inr t ↦ rw (found, t) refl
      | inl t ↦ elim (Bool-cases (same_state c.state CommentState.approved)) [
        | inl a ↦ rw (found, t, a) refl
        | inr a ↦ rw (found, t, a) refl
      ]
    ]

-- What the deletion of a top-level comment with approved replies leaves behind.
delete_own-tombstones :
    (now comment_id user_id : ℕ) (db : Db) (c : PostComment)
    → find_comment comment_id db ≡ some c
    → is_none c.parent_comment_id ≡ true
    → has_approved_replies comment_id db ≡ true
    → (delete_own now comment_id user_id db).0 ≡ ok tt
    → (delete_own now comment_id user_id db).1
      ≡ after_change (set_where_id comment_id (tombstoned now)) db
unfolding delete_own
delete_own-tombstones now comment_id user_id db c found top replied done =
    let (row, loaded) = bind-ok (load_own_row_or_raise comment_id user_id) _ db done in
    let known = load_own_row-ok comment_id user_id db loaded in
    let same : c ≡ row = cc in
    let top' : is_none row.parent_comment_id ≡ true = rw⁻¹ same top in
    let state = load_own_row-database comment_id user_id db in
    let done' : (remove_or_tombstone true now comment_id db).0 ≡ ok tt =
      rw (loaded, state, top', replied) at done in
    let (row', marked) = bind-ok (tombstone comment_id now) _ db done' in
    rw (loaded, state, top', replied, marked)
      (tombstone-database comment_id now db (tombstone-ok comment_id now db marked))

-- After an author has deleted a top-level comment that has approved replies, listing its replies
-- fails with `comment_not_found`, for every page.
pub list_replies-delete_own :
    (now comment_id user_id workspace_id limit offset : ℕ) (db : Db) (c : PostComment)
    → find_comment comment_id db ≡ some c
    → is_none c.parent_comment_id ≡ true
    → has_approved_replies comment_id db ≡ true
    → (delete_own now comment_id user_id db).0 ≡ ok tt
    → (list_replies workspace_id comment_id limit offset (delete_own now comment_id user_id db).1).0
      ≡ err comment_not_found
list_replies-delete_own now comment_id user_id workspace_id limit offset db c found top replied
      done =
    rw (delete_own-tombstones now comment_id user_id db c found top replied done) (
      list_replies_of_tombstone workspace_id comment_id limit offset now _ c
        (find_comment-update comment_id (tombstoned now) db c (λ d. refl) found))

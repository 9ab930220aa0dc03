-- ===== src/Engagement/Counters/Operations.antt =====
-- Every operation of the three services and of the sweeper keeps the counters exact.
use fastapi_base.Prelude.{
  ℕ, zero, suc, length, List, [], ◌∷◌, Keeps-bind, ◌>>◌, if◌then◌else◌, ◌≢◌, count, update, All,
  All-map, All-imp, update-eq-map, Option-cases, ◌≡◌, arith, Keeps, keeps_rules, Bool-cases, inl,
  inr,
}
use fastapi_base.Engagement.Model.{Post, PostComment, PostLike, Db, satisfies_checks}
use fastapi_base.Engagement.Triggers.{
  Change, all_pass, execute_change, execute_insert, after_change, after_insert, is_post,
}
use fastapi_base.Engagement.Repository.Likes.{add_idempotent, remove_like, exists_for_user}
use fastapi_base.Engagement.Repository.Comments.{
  set_where_id, remove_ids, returning, delete_cascade, hard_delete,
}
use fastapi_base.Engagement.Counters.Statements.{
  CountersExact, LikesUnique, KeepsPost, liked-CountersExact, unliked-CountersExact,
  liked-LikesUnique, unliked-LikesUnique, after_change-CountersExact, after_insert-CountersExact,
}
use fastapi_base.Engagement.Repository.Likes.{is_like_of}
use fastapi_base.Engagement.Repository.Posts.{
  with_counters, contributes_to, scalar_counts_for_reconcile, update_counters, find_cached_counters,
}
use fastapi_base.Engagement.Moderation.{reconcile_counters}
use fastapi_base.Engagement.Counters.Statements.{IsExact}

-- The counters are exact, and no user likes a post twice.
pub record IsConsistent (db : Db) : Type 0 where
  pub exact : CountersExact db
  pub unique : LikesUnique db

execute_change-Keeps :
    (change : PostComment → Change) → KeepsPost change → Keeps IsConsistent (execute_change change)
unfolding execute_change after_change
execute_change-Keeps change same = record {
  at = λ db h. elim (Bool-cases (all_pass change db.comments)) [
    | inl e ↦
        rw e
          (record { exact = after_change-CountersExact change db same h.exact; unique = h.unique })
    | inr e ↦ rw e h
  ];
}

pub execute_insert-Keeps : (c : PostComment) → Keeps IsConsistent (execute_insert c)
unfolding execute_insert after_insert
execute_insert-Keeps c = record {
  at = λ db h. elim (Bool-cases (satisfies_checks c)) [
    | inl e ↦ rw e (record { exact = after_insert-CountersExact c db h.exact; unique = h.unique })
    | inr e ↦ rw e h
  ];
}

set_where_id-KeepsPost :
    (comment_id : ℕ) (f : PostComment → PostComment)
    → ((c : PostComment) → (f c).post_id ≡ c.post_id)
    → KeepsPost (set_where_id comment_id f)
unfolding set_where_id
set_where_id-KeepsPost comment_id f same c new e = ground (arith, same c)

remove_ids-KeepsPost : (ids : List ℕ) → KeepsPost (remove_ids ids)
unfolding remove_ids
remove_ids-KeepsPost ids c new e = ground arith

set-Keeps :
    (comment_id : ℕ) (f : PostComment → PostComment)
    → ((c : PostComment) → (f c).post_id ≡ c.post_id)
    → Keeps IsConsistent (execute_change (set_where_id comment_id f))
set-Keeps comment_id f same = execute_change-Keeps _ (set_where_id-KeepsPost comment_id f same)

remove-Keeps : (ids : List ℕ) → Keeps IsConsistent (execute_change (remove_ids ids))
remove-Keeps ids = execute_change-Keeps _ (remove_ids-KeepsPost ids)

pub delete_cascade-Keeps : (fuel : ℕ) (ids : List ℕ) → Keeps IsConsistent (delete_cascade fuel ids)
unfolding delete_cascade
delete_cascade-Keeps zero ids = search keeps_rules
delete_cascade-Keeps (suc fuel) ids = search (keeps_rules, remove-Keeps, delete_cascade-Keeps fuel)

pub hard_delete-Keeps : (comment_id : ℕ) → Keeps IsConsistent (hard_delete comment_id)
unfolding hard_delete
hard_delete-Keeps comment_id = record {
  at = λ db h. (delete_cascade-Keeps (suc (length db.comments)) (comment_id ∷ [])).at db h;
}

-- UPDATE ... WHERE id, and the row that it returns
pub update-Keeps :
    (comment_id : ℕ) (f : PostComment → PostComment)
    → ((c : PostComment) → (f c).post_id ≡ c.post_id)
    → Keeps IsConsistent (execute_change (set_where_id comment_id f) >> returning comment_id)
update-Keeps comment_id f same =
    Keeps-bind _ _ (set-Keeps comment_id f same) (λ _. search keeps_rules)

pub add_idempotent-Keeps : (l : PostLike) → Keeps IsConsistent (add_idempotent l)
unfolding add_idempotent
add_idempotent-Keeps l = record {
  at = λ db h. elim (Bool-cases (exists_for_user l.post_id l.user_id db)) [
    | inl e ↦ rw e h
    | inr e ↦ rw e (record {
      exact = liked-CountersExact l db h.exact;
      unique = liked-LikesUnique l db e h.unique;
    })
  ];
}

pub remove_like-Keeps : (post_id user_id : ℕ) → Keeps IsConsistent (remove_like post_id user_id)
unfolding remove_like
remove_like-Keeps post_id user_id = record {
  at = λ db h. elim (Bool-cases (exists_for_user post_id user_id db)) [
    | inl e ↦ rw e (record {
      exact = unliked-CountersExact post_id user_id db e h.unique h.exact;
      unique = unliked-LikesUnique post_id user_id db h.unique;
    })
    | inr e ↦ rw e h
  ];
}

counted-IsExact :
    (likes : List PostLike) (comments : List PostComment) (post_id : ℕ) (p : Post)
    → (p.id ≢ post_id → IsExact likes comments p)
    → IsExact likes comments (
        if is_post post_id p
        then with_counters
            (count (is_like_of post_id) likes)
            (count (contributes_to post_id) comments)
            p
        else p)
counted-IsExact likes comments post_id p h = ground arith

-- `update_counters` with what `scalar_counts_for_reconcile` returns
abbrev pub corrected : ℕ → Db → Db
corrected post_id db = record db {
  posts =
      update (is_post post_id)
        (with_counters (count (is_like_of post_id) db.likes)
          (count (contributes_to post_id) db.comments))
        db.posts;
}

-- The other posts' counters were exact, so all are after the correction.
pub corrected-CountersExact :
    (post_id : ℕ) (db : Db)
    → All (λ p. p.id ≢ post_id → IsExact db.likes db.comments p) db.posts
    → CountersExact (corrected post_id db)
corrected-CountersExact post_id db h = rw update-eq-map (
    All-map (λ p. p.id ≢ post_id → IsExact db.likes db.comments p) (IsExact db.likes db.comments) _
      db.posts (counted-IsExact db.likes db.comments post_id) h)

pub reconcile-Keeps : (post_id : ℕ) → Keeps IsConsistent (reconcile_counters post_id)
unfolding reconcile_counters scalar_counts_for_reconcile update_counters
reconcile-Keeps post_id = record {
  at = λ db h. elim (Option-cases (find_cached_counters post_id db)) [
    | inl e ↦ rw e h
    | inr (cached, e) ↦ rw e (record {
      exact =
          corrected-CountersExact post_id db (All-imp _ _ db.posts (λ p exact _. exact) h.exact);
      unique = h.unique;
    })
  ];
}

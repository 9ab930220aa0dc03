-- ===== src/Engagement/Likes/Laws.antt =====
-- What a like and an unlike do, and that repeating one changes nothing.
use fastapi_base.Prelude.{
  ℕ, ◌+◌, ◌==◌, true, false, ◌≡◌, refl, some, List, [], ◌∷◌, ◌++◌, arith, ok, delete, any-append,
  delete-append, delete_none, is_none, first_satisfies, first-map, update-eq-map, ◌&&◌, ◌∙◌,
  Bool-cases, Option-cases, inl, inr, count, count-append, if◌then◌else◌,
}
use mathlib.Core.List.{append-nil}
use fastapi_base.Engagement.Model.{Post, PostLike, Db, is_archived}
use fastapi_base.Engagement.Triggers.{is_post, trg_post_likes_count_ins, trg_post_likes_count_del}
use fastapi_base.Engagement.Repository.Likes.{
  is_like, liked, unliked, exists_for_user, count_for_post, add_idempotent, remove_like, is_like_of,
}
use fastapi_base.Engagement.Repository.Posts.{find_post}
use fastapi_base.Engagement.Likes.{like_state_for, like, unlike, like_row}

exists_for_user-liked :
    (l : PostLike) (db : Db) → exists_for_user l.post_id l.user_id (liked l db) ≡ true
unfolding exists_for_user
exists_for_user-liked l db =
    ground (arith, any-append (is_like l.post_id l.user_id) db.likes (l ∷ []))

count_down_after_up :
    (post_id : ℕ) (posts : List Post)
    → trg_post_likes_count_del post_id (trg_post_likes_count_ins post_id posts) ≡ posts
unfolding trg_post_likes_count_ins trg_post_likes_count_del
count_down_after_up post_id [] = refl
count_down_after_up post_id (p ∷ posts) = ground (arith, count_down_after_up post_id posts)

unliked-liked :
    (l : PostLike) (db : Db)
    → exists_for_user l.post_id l.user_id db ≡ false
    → unliked l.post_id l.user_id (liked l db) ≡ db
unfolding exists_for_user
unliked-liked l db new =
    let mine = is_like l.post_id l.user_id in
    let gone : delete mine (db.likes ++ l ∷ []) ≡ db.likes =
      delete-append mine db.likes (l ∷ [])
      ∙ ground (arith, delete_none mine db.likes new, append-nil db.likes) in
    λ i. record db { likes = gone i; posts = count_down_after_up l.post_id db.posts i }

-- A post that can be liked is found again, with its new count, after the like.
find_post-liked :
    (l : PostLike) (workspace_id post_id : ℕ) (p : Post) (db : Db)
    → find_post workspace_id post_id db ≡ some p
    → find_post workspace_id post_id (liked l db)
      ≡ some (if is_post l.post_id p then record p { like_count = p.like_count + 1 } else p)
unfolding find_post trg_post_likes_count_ins
find_post-liked l workspace_id post_id p db found = rw update-eq-map (
    first-map _ (λ q. if is_post l.post_id q then record q { like_count = q.like_count + 1 } else q)
      db.posts p (λ q. ground arith) found)

-- The post of the row that a request likes.
find_post_id :
    (workspace_id post_id : ℕ) (db : Db) (p : Post)
    → find_post workspace_id post_id db ≡ some p
    → p.id ≡ post_id
unfolding find_post
find_post_id workspace_id post_id db p found = ground (
  arith,
  first_satisfies (λ q. q.id == post_id && q.workspace_id == workspace_id && is_none q.deleted_at)
      db.posts found,
)

module _ (now workspace_id post_id user_id : ℕ) (db : Db) (p : Post)
    (found : find_post workspace_id post_id db ≡ some p)
    (is_open : is_archived p.status ≡ false) where
  -- The response to a like of a post that is open for it says that the caller likes the post and
  -- counts the likes there were, and one more if the caller did not like it before.
  like_open :
      (like now workspace_id post_id user_id db).0
      ≡ ok (record {
        post_id = p.id;
        like_count =
            count (is_like_of p.id) db.likes + (if exists_for_user p.id user_id db then 0 else 1);
        liked_by_me = true;
      })
  unfolding like add_idempotent count_for_post
  like_open = elim (Bool-cases (exists_for_user p.id user_id db)) [
    | inl e ↦ rw (found, is_open, e, e) (ground arith)
    | inr e ↦
        rw (found, is_open, e, exists_for_user-liked (like_row now p user_id) db)
          (ground (arith, count-append (is_like_of p.id) db.likes (like_row now p user_id ∷ [])))
  ]

  like_known :
      exists_for_user p.id user_id db ≡ true
      → like now workspace_id post_id user_id db ≡ like_state_for p user_id db
  unfolding like add_idempotent
  like_known e = rw (found, is_open, e) (rw e refl)

  like_new :
      exists_for_user p.id user_id db ≡ false
      → like now workspace_id post_id user_id db
        ≡ like_state_for p user_id (liked (like_row now p user_id) db)
  unfolding like add_idempotent
  like_new e = rw (found, is_open, e) refl

  unlike_known :
      exists_for_user p.id user_id db ≡ true
      → unlike workspace_id post_id user_id db ≡ like_state_for p user_id (unliked p.id user_id db)
  unfolding unlike remove_like
  unlike_known e = rw (found, is_open, e) refl

like_state_for-database : (p : Post) (user_id : ℕ) (db : Db) → (like_state_for p user_id db).1 ≡ db
unfolding like_state_for
like_state_for-database p user_id db = refl

like_state_for-id :
    (p q : Post) (user_id : ℕ) (db : Db)
    → q.id ≡ p.id
    → like_state_for q user_id db ≡ like_state_for p user_id db
unfolding like_state_for
like_state_for-id p q user_id db e = rw e refl

module _ (now workspace_id post_id user_id : ℕ) (db : Db) (p : Post)
    (found : find_post workspace_id post_id db ≡ some p) (is_open : is_archived p.status ≡ false)
    (new : exists_for_user p.id user_id db ≡ false) where
  row : PostLike
  row = like_row now p user_id

  counted : Post
  counted = record p { like_count = p.like_count + 1 }

  find_counted : find_post workspace_id post_id (liked row db) ≡ some counted
  unfolding row counted
  find_counted = rw (find_post-liked row workspace_id post_id p db found) (ground arith)

  like_again_new :
      (now' : ℕ)
      → like now' workspace_id post_id user_id (like now workspace_id post_id user_id db).1
        ≡ like now workspace_id post_id user_id db
  unfolding row counted like_state_for
  like_again_new now' =
      rw
        (
          like_new now workspace_id post_id user_id db p found is_open new,
          like_state_for-database p user_id (liked row db),
        )
        (like_known now' workspace_id post_id user_id (liked row db) counted find_counted is_open
            (exists_for_user-liked row db)
          ∙ like_state_for-id p counted user_id (liked row db) refl)

  -- An unlike right after a like that was new restores the database.
  pub unlike_after_like :
      (unlike workspace_id post_id user_id (like now workspace_id post_id user_id db).1).1 ≡ db
  unfolding row counted like_state_for
  unlike_after_like =
      rw
        (
          like_new now workspace_id post_id user_id db p found is_open new,
          like_state_for-database p user_id (liked row db),
          unlike_known now workspace_id post_id user_id (liked row db) counted find_counted is_open
              (exists_for_user-liked row db),
          like_state_for-database counted user_id (unliked p.id user_id (liked row db)),
        )
        (unliked-liked row db new)

-- Liking a post a second time changes neither the database nor the response, also when the first
-- like was refused.
pub like_twice :
    (now now' workspace_id post_id user_id : ℕ) (db : Db)
    → like now' workspace_id post_id user_id (like now workspace_id post_id user_id db).1
      ≡ like now workspace_id post_id user_id db
unfolding like
like_twice now now' workspace_id post_id user_id db =
    elim (Option-cases (find_post workspace_id post_id db)) [
      | inl e ↦ rw (e, e) refl
      | inr (p, found) ↦ elim (Bool-cases (is_archived p.status)) [
        | inl e ↦ rw (found, e, found, e) refl
        | inr e ↦ elim (Bool-cases (exists_for_user p.id user_id db)) [
          | inl known ↦
              rw (like_known now workspace_id post_id user_id db p found e known)
                (like_known now' workspace_id post_id user_id db p found e known)
          | inr new ↦ like_again_new now workspace_id post_id user_id db p found e new now'
        ]
      ]
    ]

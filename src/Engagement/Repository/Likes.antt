-- ===== src/Engagement/Repository/Likes.antt =====
-- PostLikeRepository (apps/blog/repositories/_post_like.py).
use fastapi_base.Prelude.{
  ℕ, ◌==◌, Bool, true, false, ◌&&◌, [], ◌∷◌, ◌++◌, if◌then◌else◌, count, any, delete, ok,
}
use fastapi_base.Engagement.Model.{PostLike, Db, Action}
use fastapi_base.Engagement.Triggers.{trg_post_likes_count_ins, trg_post_likes_count_del}

abbrev pub is_like : ℕ → ℕ → PostLike → Bool
is_like post_id user_id l = l.post_id == post_id && l.user_id == user_id

abbrev pub is_like_of : ℕ → PostLike → Bool
is_like_of post_id l = l.post_id == post_id

unfoldable pub exists_for_user : ℕ → ℕ → Db → Bool
exists_for_user post_id user_id db = any (is_like post_id user_id) db.likes

unfoldable pub count_for_post : ℕ → Db → ℕ
count_for_post post_id db = count (is_like_of post_id) db.likes

abbrev pub liked : PostLike → Db → Db
liked l db = record db {
  likes = db.likes ++ l ∷ [];
  posts = trg_post_likes_count_ins l.post_id db.posts;
}

-- INSERT ... ON CONFLICT (post_id, user_id) DO NOTHING, with the AFTER INSERT trigger
unfoldable pub add_idempotent : PostLike → Action Bool
add_idempotent l db =
    if exists_for_user l.post_id l.user_id db then (ok false, db) else (ok true, liked l db)

abbrev pub unliked : ℕ → ℕ → Db → Db
unliked post_id user_id db = record db {
  likes = delete (is_like post_id user_id) db.likes;
  posts = trg_post_likes_count_del post_id db.posts;
}

-- DELETE of the one row that uq_post_likes_post_user allows, with the AFTER DELETE trigger
unfoldable pub remove_like : ℕ → ℕ → Action Bool
remove_like post_id user_id db =
    if exists_for_user post_id user_id db
    then (ok true, unliked post_id user_id db)
    else (ok false, db)

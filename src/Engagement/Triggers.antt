-- ===== src/Engagement/Triggers.antt =====
-- The two trigger functions of the migration, and what an INSERT, UPDATE or DELETE statement on
-- post_comments does: it changes rows, checks the new ones and fires the trigger for each.
use fastapi_base.Prelude.{
  ℕ, ◌+◌, ◌-◌, ◌==◌, Bool, true, ◌&&◌, ◌||◌, not, Option, none, some, List, [], ◌∷◌, ◌++◌, map,
  if◌then◌else◌, is_none, same_num, update, ok, err,
}
use fastapi_base.Engagement.Model.{
  Post, PostComment, CommentState, same_state, Db, Action, integrity_error, satisfies_checks,
}

-- the contribution predicate `state = 'approved' AND deleted_at IS NULL`
abbrev pub contributes : PostComment → Bool
contributes c = same_state c.state CommentState.approved && is_none c.deleted_at

abbrev pub contribution : Option PostComment → ℕ
contribution none = 0
contribution (some c) = if contributes c then 1 else 0

-- `COALESCE(NEW.post_id, OLD.post_id)`
abbrev pub target_post : Option PostComment → Option PostComment → ℕ
target_post old (some new) = new.post_id
target_post (some old) none = old.post_id
target_post none none = 0

-- trg_post_comments_count_fn on one row of posts; OLD is none at INSERT and NEW is none at DELETE
unfoldable pub trg_post_comments_count_fn : Option PostComment → Option PostComment → Post → Post
trg_post_comments_count_fn old new p =
    if not (contribution new == contribution old) && p.id == target_post old new
    then record p { comment_count = p.comment_count + contribution new - contribution old }
    else p

-- What a statement does to one row of post_comments.
pub data Change : Type 0 where
  keep : Change
  set : PostComment → Change
  remove : Change

-- the WHEN clause of trg_post_comments_count_upd
abbrev pub when_updated : PostComment → PostComment → Bool
when_updated old new =
    not (same_state old.state new.state) || not (same_num old.deleted_at new.deleted_at)

-- trg_post_comments_count_upd and trg_post_comments_count_del, for one row
unfoldable pub fire : PostComment → Change → Post → Post
unfolding trg_post_comments_count_fn
fire old keep p = p
fire old (set new) p =
    if when_updated old new then trg_post_comments_count_fn (some old) (some new) p else p
fire old remove p = trg_post_comments_count_fn (some old) none p

-- the trigger calls of a statement over all rows, as one row of posts sees them
unfoldable pub fire_all : (PostComment → Change) → List PostComment → Post → Post
fire_all change [] p = p
fire_all change (c ∷ cs) p = fire_all change cs (fire c (change c) p)

abbrev pub apply_change : PostComment → Change → List PostComment
apply_change c keep = c ∷ []
apply_change c (set new) = new ∷ []
apply_change c remove = []

unfoldable pub rows_after : (PostComment → Change) → List PostComment → List PostComment
rows_after change [] = []
rows_after change (c ∷ cs) = apply_change c (change c) ++ rows_after change cs

abbrev change_passes : Change → Bool
change_passes (set new) = satisfies_checks new
change_passes _ = true

unfoldable pub all_pass : (PostComment → Change) → List PostComment → Bool
all_pass change [] = true
all_pass change (c ∷ cs) = change_passes (change c) && all_pass change cs

-- the database after a statement whose rows pass the constraints
unfoldable pub after_change : (PostComment → Change) → Db → Db
after_change change db = record db {
  comments = rows_after change db.comments;
  posts = map (fire_all change db.comments) db.posts;
}

-- UPDATE or DELETE on post_comments: a refused row refuses the whole statement
unfoldable pub execute_change : (PostComment → Change) → Action Unit
execute_change change db =
    if all_pass change db.comments
    then (ok tt, after_change change db)
    else (err integrity_error, db)

-- INSERT INTO post_comments, with trg_post_comments_count_ins
unfoldable pub after_insert : PostComment → Db → Db
after_insert c db = record db {
  comments = db.comments ++ c ∷ [];
  posts = map (trg_post_comments_count_fn none (some c)) db.posts;
}

unfoldable pub execute_insert : PostComment → Action Unit
execute_insert c db =
    if satisfies_checks c then (ok tt, after_insert c db) else (err integrity_error, db)

abbrev pub is_post : ℕ → Post → Bool
is_post post_id p = p.id == post_id

-- trg_post_likes_count_fn at INSERT and at DELETE of a like of `post_id`
unfoldable pub trg_post_likes_count_ins : ℕ → List Post → List Post
trg_post_likes_count_ins post_id =
    update (is_post post_id) (λ p. record p { like_count = p.like_count + 1 })

unfoldable pub trg_post_likes_count_del : ℕ → List Post → List Post
trg_post_likes_count_del post_id =
    update (is_post post_id) (λ p. record p { like_count = p.like_count - 1 })

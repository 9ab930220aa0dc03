-- ===== src/Engagement/Counters/Statements.antt =====
-- The triggers keep `comment_count` and `like_count` exact under each statement.
use fastapi_base.Prelude.{
  ℕ, ◌+◌, ◌-◌, ◌≤◌, ◌==◌, true, false, ◌&&◌, none, some, List, [], ◌∷◌, ◌++◌, if◌then◌else◌, count,
  count-append, delete, count-delete, count-pos_of_any, count-zero_of_not_any, update-eq-map, All,
  All-map, ◌≡◌, refl, ◌∙◌, arith,
}
use fastapi_base.Engagement.Model.{Post, PostComment, PostLike, Db}
use fastapi_base.Engagement.Triggers.{
  Change, keep, set, remove, fire, fire_all, rows_after, apply_change, after_change, after_insert,
  trg_post_comments_count_fn, contributes, is_post, trg_post_likes_count_ins,
  trg_post_likes_count_del, when_updated,
}
use fastapi_base.Engagement.Repository.Likes.{is_like_of, is_like, liked, unliked, exists_for_user}
use fastapi_base.Engagement.Repository.Posts.{contributes_to}

-- The cached counters of one post are the numbers of its likes and of its visible comments.
abbrev pub IsExact : List PostLike → List PostComment → Post → Type 0
IsExact likes comments p =
    (p.like_count ≡ count (is_like_of p.id) likes)
    × (p.comment_count ≡ count (contributes_to p.id) comments)

abbrev pub CountersExact : Db → Type 0
CountersExact db = All (IsExact db.likes db.comments) db.posts

-- A statement that moves no comment to another post.
abbrev pub KeepsPost : (PostComment → Change) → Type 0
KeepsPost change = (c new : PostComment) → change c ≡ set new → new.post_id ≡ c.post_id

when_unchanged :
    (c new : PostComment) → when_updated c new ≡ false → contributes new ≡ contributes c
when_unchanged c new h = ground arith

-- One trigger call moves the counter by the change of the row's contribution.
fire_counts :
    (c : PostComment) (ch : Change) (k : ℕ) (p : Post)
    → ((new : PostComment) → ch ≡ set new → new.post_id ≡ c.post_id)
    → p.comment_count ≡ k + count (contributes_to p.id) (c ∷ [])
    → (fire c ch p).comment_count ≡ k + count (contributes_to p.id) (apply_change c ch)
unfolding fire
fire_counts c keep k p same h = h
fire_counts c (set new) k p same h = ground (arith, same new refl, when_unchanged c new)
fire_counts c remove k p same h = ground arith

fire-fields :
    (c : PostComment) (ch : Change) (p : Post)
    → ((fire c ch p).id ≡ p.id) × ((fire c ch p).like_count ≡ p.like_count)
unfolding fire
fire-fields c keep p = (refl, refl)
fire-fields c (set new) p = ground arith
fire-fields c remove p = ground arith

pub fire_all-fields :
    (change : PostComment → Change) (cs : List PostComment) (p : Post)
    → ((fire_all change cs p).id ≡ p.id) × ((fire_all change cs p).like_count ≡ p.like_count)
unfolding fire_all
fire_all-fields change [] p = (refl, refl)
fire_all-fields change (c ∷ cs) p =
    let step = fire-fields c (change c) p in
    let rest = fire_all-fields change cs (fire c (change c) p) in (rest.0 ∙ step.0, rest.1 ∙ step.1)

-- A whole statement, with `k` for the rows that it has passed.
fire_all_counts :
    (change : PostComment → Change) (cs : List PostComment) (k : ℕ) (p : Post)
    → KeepsPost change
    → p.comment_count ≡ k + count (contributes_to p.id) cs
    → (fire_all change cs p).comment_count ≡ k + count (contributes_to p.id) (rows_after change cs)
unfolding fire_all rows_after fire
fire_all_counts change [] k p keeps h = h
fire_all_counts change (c ∷ cs) k p keeps h =
    let here = apply_change c (change c) in
    let p' = fire c (change c) p in
    let same : p'.id ≡ p.id = (fire-fields c (change c) p).0 in
    let passed = k + count (contributes_to p.id) here in
    let tail = count (contributes_to p.id) cs in
    let step : p'.comment_count ≡ passed + tail =
      omega (arith, fire_counts c (change c) (k + tail) p (keeps c) (omega arith)) in
    let rest = fire_all_counts change cs passed p' keeps (rw same step) in
    omega (arith, (rw same at rest), count-append (contributes_to p.id) here (rows_after change cs))

-- A statement on post_comments keeps every post's counters exact.
pub after_change-CountersExact :
    (change : PostComment → Change) (db : Db)
    → KeepsPost change
    → CountersExact db
    → CountersExact (after_change change db)
unfolding after_change
after_change-CountersExact change db keeps =
    All-map (IsExact db.likes db.comments) (IsExact db.likes (rows_after change db.comments))
      (fire_all change db.comments) db.posts
      λ p h.
        let fields = fire_all-fields change db.comments p in
        let counted = fire_all_counts change db.comments 0 p keeps (omega (arith, h.1)) in
        (rw (fields.0, fields.1) h.0, rw fields.0 (omega (arith, counted)))

insert-IsExact :
    (likes : List PostLike) (comments : List PostComment) (c : PostComment) (p : Post)
    → IsExact likes comments p
    → IsExact likes (comments ++ c ∷ []) (trg_post_comments_count_fn none (some c) p)
unfolding trg_post_comments_count_fn
insert-IsExact likes comments c p h =
    ground (arith, count-append (contributes_to p.id) comments (c ∷ []))

pub after_insert-CountersExact :
    (c : PostComment) (db : Db) → CountersExact db → CountersExact (after_insert c db)
unfolding after_insert
after_insert-CountersExact c db =
    All-map (IsExact db.likes db.comments) (IsExact db.likes (db.comments ++ c ∷ []))
      (trg_post_comments_count_fn none (some c)) db.posts (insert-IsExact db.likes db.comments c)

-- uq_post_likes_post_user
abbrev pub LikesUnique : Db → Type 0
LikesUnique db = (post_id user_id : ℕ) → count (is_like post_id user_id) db.likes ≤ 1

liked-IsExact :
    (likes : List PostLike) (comments : List PostComment) (l : PostLike) (p : Post)
    → IsExact likes comments p
    → IsExact
        (likes ++ l ∷ [])
        comments
        (if is_post l.post_id p then record p { like_count = p.like_count + 1 } else p)
liked-IsExact likes comments l p h = ground (arith, count-append (is_like_of p.id) likes (l ∷ []))

pub liked-CountersExact : (l : PostLike) (db : Db) → CountersExact db → CountersExact (liked l db)
unfolding trg_post_likes_count_ins
liked-CountersExact l db h = rw update-eq-map (
    All-map (IsExact db.likes db.comments) (IsExact (db.likes ++ l ∷ []) db.comments) _ db.posts
      (liked-IsExact db.likes db.comments l) h)

pub liked-LikesUnique :
    (l : PostLike) (db : Db)
    → exists_for_user l.post_id l.user_id db ≡ false
    → LikesUnique db
    → LikesUnique (liked l db)
unfolding exists_for_user
liked-LikesUnique l db new h post_id user_id = ground (
  arith,
  count-append (is_like post_id user_id) db.likes (l ∷ []),
  count-zero_of_not_any (is_like l.post_id l.user_id) db.likes new,
  h post_id user_id,
)

pub unliked-LikesUnique :
    (post_id user_id : ℕ) (db : Db) → LikesUnique db → LikesUnique (unliked post_id user_id db)
unliked-LikesUnique post_id user_id db h p u =
    omega (arith, count-delete (is_like p u) (is_like post_id user_id) db.likes, h p u)

-- The likes that an unlike takes from the post `p`.
taken :
    (p post_id user_id : ℕ) (likes : List PostLike)
    → count (λ l. is_like_of p l && is_like post_id user_id l) likes
      ≡ (if p == post_id then count (is_like post_id user_id) likes else 0)
taken p post_id user_id [] = ground arith
taken p post_id user_id (l ∷ likes) = ground (arith, taken p post_id user_id likes)

unliked-IsExact :
    (likes : List PostLike) (comments : List PostComment) (post_id user_id : ℕ) (p : Post)
    → count (is_like post_id user_id) likes ≡ 1
    → IsExact likes comments p
    → IsExact
        (delete (is_like post_id user_id) likes)
        comments
        (if is_post post_id p then record p { like_count = p.like_count - 1 } else p)
unliked-IsExact likes comments post_id user_id p one h = ground (
  arith,
  count-delete (is_like_of p.id) (is_like post_id user_id) likes,
  taken p.id post_id user_id likes,
)

pub unliked-CountersExact :
    (post_id user_id : ℕ) (db : Db)
    → exists_for_user post_id user_id db ≡ true
    → LikesUnique db
    → CountersExact db
    → CountersExact (unliked post_id user_id db)
unfolding trg_post_likes_count_del exists_for_user
unliked-CountersExact post_id user_id db found unique h =
    let one : count (is_like post_id user_id) db.likes ≡ 1 =
      omega (
        arith,
        count-pos_of_any (is_like post_id user_id) db.likes found,
        unique post_id user_id,
      ) in
    rw update-eq-map (
      All-map (IsExact db.likes db.comments)
        (IsExact (delete (is_like post_id user_id) db.likes) db.comments) _ db.posts
        (λ p. unliked-IsExact db.likes db.comments post_id user_id p one) h)

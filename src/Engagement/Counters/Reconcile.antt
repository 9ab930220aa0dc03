-- ===== src/Engagement/Counters/Reconcile.antt =====
-- `reconcile_counters` repairs a post whose cached counters have drifted.
use fastapi_base.Prelude.{
  ℕ, false, ◌≡◌, refl, some, List, [], ◌∷◌, All, update, first, count, arith, ok, Bool-cases, inl,
  inr,
}
use fastapi_base.Engagement.Model.{Post, PostComment, PostLike, Db}
use fastapi_base.Engagement.Triggers.{is_post}
use fastapi_base.Engagement.Repository.Likes.{is_like_of}
use fastapi_base.Engagement.Repository.Posts.{
  contributes_to, with_counters, find_cached_counters, scalar_counts_for_reconcile, update_counters,
}
use fastapi_base.Engagement.Moderation.{reconcile_counters, ReconcileResponse}
use fastapi_base.Engagement.Counters.Statements.{IsExact}

module _ (likes : List PostLike) (comments : List PostComment) (post_id : ℕ) where
  abbrev counted : Post → Post
  counted =
      with_counters (count (is_like_of post_id) likes) (count (contributes_to post_id) comments)

  counted-IsExact :
      (posts : List Post)
      → All
          (λ p. p.id ≡ post_id → IsExact likes comments p)
          (update (is_post post_id) counted posts)
  counted-IsExact [] = tt
  counted-IsExact (p ∷ posts) = elim (Bool-cases (is_post post_id p)) [
    | inl e ↦ rw e (λ same. ground arith, counted-IsExact posts)
    | inr e ↦ rw e (λ same. absurd (ground arith), counted-IsExact posts)
  ]

  first-counted :
      (posts : List Post) (p : Post)
      → first (is_post post_id) posts ≡ some p
      → first (is_post post_id) (update (is_post post_id) counted posts) ≡ some (counted p)
  first-counted [] p h = cc
  first-counted (q ∷ posts) p h = elim (Bool-cases (is_post post_id q)) [
    | inl e ↦ rw (e, e) (ground arith)
    | inr e ↦ rw (e, e) (first-counted posts p (rw e at h))
  ]

-- However far the counters of a post have drifted, a reconcile of it leaves them exact and keeps the
-- comments and likes, and a second reconcile reports no drift.
pub reconcile_repairs :
    (post_id : ℕ) (db : Db) (p : Post)
    → first (is_post post_id) db.posts ≡ some p
    → let db' = (reconcile_counters post_id db).1 in
      All (λ q. q.id ≡ post_id → IsExact db.likes db.comments q) db'.posts
      × (db'.comments ≡ db.comments)
      × (db'.likes ≡ db.likes)
      × ((r : ReconcileResponse) × ((reconcile_counters post_id db').0 ≡ ok r)
          × (r.drift_corrected ≡ false))
unfolding reconcile_counters find_cached_counters scalar_counts_for_reconcile update_counters
reconcile_repairs post_id db p found =
    rw (found, first-counted db.likes db.comments post_id db.posts p found)
      (counted-IsExact db.likes db.comments post_id db.posts, refl, refl, (_, refl, ground arith))

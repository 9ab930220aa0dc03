-- ===== src/Posts/Repository/Rows.antt =====
-- What an UPDATE of a post shows to the look-up that comes after it.
use fastapi_base.Prelude.{
  ℕ, ◌≡◌, refl, ap, ◌∙◌, true, false, Option, some, map_option, List, [], ◌∷◌, any, first,
  first_satisfies, first-update_kept, update, arith, Bool-cases, inl, inr, ok,
}
use fastapi_base.Posts.Model.{Post, Db, State}
use fastapi_base.Posts.Repository.{
  is_live_post, is_in_workspace, has_post_id, find_post, update_post, refused_update, is_refused,
  on_db,
}

-- the columns by which posts are looked up
abbrev pub KeepsKeys : (Post → Post) → Type 0
KeepsKeys f =
    (p : Post)
    → ((f p).id ≡ p.id) × ((f p).workspace_id ≡ p.workspace_id) × ((f p).deleted_at ≡ p.deleted_at)

abbrev pub with_posts : ℕ → (Post → Post) → State → State
with_posts post_id f = on_db (λ db. record db { posts = update (is_live_post post_id) f db.posts })

pub with_posts-find_post :
    (workspace_id post_id : ℕ) (f : Post → Post) (s : State) (post : Post)
    → KeepsKeys f
    → find_post workspace_id post_id s.db ≡ some post
    → find_post workspace_id post_id (with_posts post_id f s).db ≡ some (f post)
unfolding find_post
with_posts-find_post workspace_id post_id f s post keeps found =
    let q = is_in_workspace workspace_id post_id in
    let kept : (y : Post)
        → is_in_workspace workspace_id post_id (f y) ≡ is_in_workspace workspace_id post_id y =
      λ y. rw ((keeps y).0, (keeps y).1, (keeps y).2) refl in
    let here : is_in_workspace workspace_id post_id post ≡ true =
      first_satisfies q s.db.posts found in
    let live : is_live_post post_id post ≡ true = ground (arith, here) in
    rw (first-update_kept q (is_live_post post_id) f s.db.posts post kept found, live) refl

pub update_post-returned :
    (post_id : ℕ) (f : Post → Post) (s : State) {row : Option Post}
    → (update_post post_id f s).0 ≡ ok row
    → (update_post post_id f s).1 ≡ with_posts post_id f s
unfolding update_post
update_post-returned post_id f s h =
    elim (Bool-cases
      (refused_update s.db.posts (map_option f (first (is_live_post post_id) s.db.posts)))) [
        | inl e ↦ cc (rw e at h)
        | inr e ↦ rw e refl
      ]

pub find_post-any :
    (workspace_id post_id : ℕ) (db : Db) (post : Post)
    → find_post workspace_id post_id db ≡ some post
    → (any (has_post_id post_id) db.posts ≡ true) × (post.id ≡ post_id)
unfolding find_post
find_post-any workspace_id post_id db post found = (
  go db.posts found,
  ground (arith, first_satisfies (is_in_workspace workspace_id post_id) db.posts found),
)
  where
    go :
        (posts : List Post)
        → first (is_in_workspace workspace_id post_id) posts ≡ some post
        → any (has_post_id post_id) posts ≡ true
    go [] h = cc
    go (p ∷ posts) h = elim (Bool-cases (is_in_workspace workspace_id post_id p)) [
      | inl e ↦ ground (arith, e)
      | inr e ↦ ground (arith, go posts (rw e at h))
    ]

pub find_post_same :
    (workspace_id post_id : ℕ) (db db' : Db)
    → db.posts ≡ db'.posts
    → find_post workspace_id post_id db ≡ find_post workspace_id post_id db'
unfolding find_post
find_post_same workspace_id post_id db db' same = rw same refl

-- An update of a row that satisfies the table's constraints, and still does, goes through.
pub update_post-succeeds :
    (post_id : ℕ) (f : Post → Post) (s : State) (post : Post)
    → first (is_live_post post_id) s.db.posts ≡ some post
    → is_refused s.db.posts (f post) ≡ false
    → update_post post_id f s ≡ (ok (some (f post)), with_posts post_id f s)
unfolding update_post
update_post-succeeds post_id f s post found accepted = rw (found, accepted) refl

pub find_post-live :
    (workspace_id post_id : ℕ) (db : Db) (post : Post)
    → first (is_live_post post_id) db.posts ≡ some post
    → post.workspace_id ≡ workspace_id
    → find_post workspace_id post_id db ≡ some post
unfolding find_post
find_post-live workspace_id post_id db post found here = go db.posts found
  where
    go :
        (posts : List Post)
        → first (is_live_post post_id) posts ≡ some post
        → first (is_in_workspace workspace_id post_id) posts ≡ some post
    go [] h = cc
    go (p ∷ posts) h = elim (Bool-cases (is_live_post post_id p)) [
      | inl e ↦
          let same : p ≡ post = cc (rw e at h) in
          let in_workspace : is_in_workspace workspace_id post_id p ≡ true =
            (let ws : p.workspace_id ≡ workspace_id = ap (λ x. x.workspace_id) same ∙ here in
              ground (arith, e, ws)) in
          rw in_workspace (ap some same)
      | inr e ↦
          let outside : is_in_workspace workspace_id post_id p ≡ false = ground (arith, e) in
          rw outside (go posts (rw e at h))
    ]

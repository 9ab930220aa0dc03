-- ===== src/Posts/Autosave/Flush.antt =====
-- A flush that nothing interferes with.
use fastapi_base.Prelude.{
  Bool, ℕ, ◌≡◌, refl, ◌∙◌, ◌==◌, ==_refl, true, false, none, some, List, [], ◌∷◌, ◌++◌, any, first,
  any-update, Text, ok, Bool-cases, inl, inr, arith,
}
use fastapi_base.Posts.Model.{Post, PostContent, PostVersion, Db, State, Redis, AutosaveSnapshot}
use fastapi_base.Posts.Content.{Pipeline, ContentArtifacts, compute_content_artifacts}
use fastapi_base.Posts.Repository.{
  is_live_post, is_content_of, has_post_id, find_post, find_content, is_refused, on_db,
}
use fastapi_base.Posts.Repository.Rows.{
  with_posts, with_posts-find_post, update_post-succeeds, find_post-any, find_post_same,
  find_post-live,
}
use fastapi_base.Posts.Versions.{next_row, find_latest_for_post}
use fastapi_base.Posts.Versions.Alone.{add_with_retry-succeeds}
use fastapi_base.Posts.Writer.{upsert_content_for_flush, persist_snapshot, version_row}
use fastapi_base.Posts.Writer.Body.{with_contents, Holds, write_body-Holds}
use fastapi_base.Posts.Store.{get, acquire_flush_lock, release_flush_lock}
use fastapi_base.Posts.Store.Marking.{marked, mark_flushed-cas}
use fastapi_base.Posts.Autosave.{
  Fresh, load_post_or_raise, get_snapshot, is_unchanged, is_publish_transition, write_post_version,
  with_fingerprint, write_snapshot, mark, flush_snapshot, acquired, lock, flush_dirty, is_to_flush,
  flush_one,
}
use fastapi_base.Tiptap.Extract.{Node}

abbrev pub with_versions : List PostVersion → State → State
with_versions versions = on_db (λ db. record db { versions = versions })

upsert-Holds :
    (content_id post_id : ℕ) (doc : Node) (html text : Text) (s : State)
    → any (has_post_id post_id) s.db.posts ≡ true
    → (contents : List PostContent) × (upsert_content_for_flush content_id post_id doc html text s
        ≡ (ok tt, with_contents contents s))
      × (c : PostContent) × (first (is_content_of post_id) contents ≡ some c)
      × Holds doc html text c
unfolding upsert_content_for_flush
upsert-Holds = write_body-Holds

write_post_version-succeeds :
    (pipeline : Pipeline) (post : Post) (workspace_id : ℕ) (snapshot : AutosaveSnapshot)
    (artifacts : ContentArtifacts) (s : State)
    → any (has_post_id post.id) s.db.posts ≡ true
    → (versions : List PostVersion) × (write_post_version pipeline [] post workspace_id snapshot
          artifacts s
        ≡ (ok tt, with_versions versions s))
unfolding write_post_version persist_snapshot
write_post_version-succeeds pipeline post workspace_id snapshot artifacts s here =
    let previous = find_latest_for_post post.id s.db in
    elim (Bool-cases (is_unchanged post artifacts.content_hash previous)) [
      | inl e ↦ (s.db.versions, rw e refl)
      | inr e ↦
          let row =
            version_row post workspace_id (pipeline.compress snapshot.content_json)
              artifacts.content_text (some artifacts.content_hash) snapshot.author_id none
              (is_publish_transition post previous) false post.status in
          let inserted = add_with_retry-succeeds 2 row s here (ground arith) in
          (s.db.versions ++ next_row row s.db ∷ [], rw (e, inserted) refl)
    ]

snapshot-lock :
    (fresh : Fresh) (post_id : ℕ) (r : Redis)
    → get fresh.now post_id (lock fresh post_id r) ≡ get fresh.now post_id r
unfolding get acquire_flush_lock
snapshot-lock fresh post_id r = refl

snapshot-release :
    (now token post_id : ℕ) (r : Redis)
    → get now post_id (release_flush_lock now token post_id r) ≡ get now post_id r
unfolding get release_flush_lock
snapshot-release now token post_id r = refl

-- what a flush of `snapshot` leaves behind
abbrev pub IsFlushed : Pipeline → ℕ → ℕ → AutosaveSnapshot → State → Type 0
IsFlushed pipeline now post_id snapshot s =
    let artifacts = compute_content_artifacts pipeline snapshot.content_json in
    ((c : PostContent) × (find_content post_id s.db ≡ some c)
      × Holds snapshot.content_json artifacts.content_html artifacts.content_text c)
    × (get_snapshot now post_id s ≡ some (marked artifacts.content_hash snapshot))

write_snapshot-succeeds :
    (pipeline : Pipeline) (fresh : Fresh) (workspace_id : ℕ) (snapshot : AutosaveSnapshot)
    (post : Post) (s : State)
    → fresh.rivals ≡ []
    → first (is_live_post post.id) s.db.posts ≡ some post
    → any (has_post_id post.id) s.db.posts ≡ true
    → is_refused s.db.posts post ≡ false
    → let artifacts = compute_content_artifacts pipeline snapshot.content_json in
      (contents : List PostContent) × (versions : List PostVersion) × (write_snapshot pipeline fresh
          post workspace_id snapshot artifacts s
        ≡ (
          ok tt,
          with_versions versions
              (with_posts post.id (with_fingerprint artifacts) (with_contents contents s)),
        ))
      × (c : PostContent) × (first (is_content_of post.id) contents ≡ some c)
      × Holds snapshot.content_json artifacts.content_html artifacts.content_text c
unfolding write_snapshot
write_snapshot-succeeds pipeline fresh workspace_id snapshot post s alone found here accepted =
    let artifacts = compute_content_artifacts pipeline snapshot.content_json in
    let f = with_fingerprint artifacts in
    let (contents, written, c, first_c, holds) =
      upsert-Holds fresh.content_id post.id snapshot.content_json artifacts.content_html
        artifacts.content_text s here in
    let s1 = with_contents contents s in
    let updated = update_post-succeeds post.id f s1 post found accepted in
    let s2 = with_posts post.id f s1 in
    let (versions, versioned) =
      write_post_version-succeeds pipeline post workspace_id snapshot artifacts s2
        (any-update (has_post_id post.id) (is_live_post post.id) f s.db.posts (λ y. refl) ∙ here) in
    (contents, versions, rw (written, updated, alone, versioned) refl, c, first_c, holds)

-- the mark that follows the release of the lock
pub marked-snapshot :
    (fresh : Fresh) (post_id content_hash : ℕ) (snapshot : AutosaveSnapshot) (r : Redis)
    → get fresh.now post_id r ≡ some snapshot
    → snapshot.content_hash ≡ content_hash
    → get fresh.now post_id (
        mark fresh.now post_id content_hash
          (release_flush_lock fresh.now fresh.token post_id (lock fresh post_id r)))
      ≡ some (marked content_hash snapshot)
marked-snapshot fresh post_id content_hash snapshot r found same =
    let r' = release_flush_lock fresh.now fresh.token post_id (lock fresh post_id r) in
    let found' =
      snapshot-release fresh.now fresh.token post_id (lock fresh post_id r)
      ∙ snapshot-lock fresh post_id r
      ∙ found in
    let (_, written, _) = mark_flushed-cas fresh.now post_id content_hash r' snapshot found' in
    let current : (snapshot.content_hash == content_hash) ≡ true = rw same (==_refl content_hash) in
    rw current at written

pub artifacts-hash :
    (pipeline : Pipeline) (doc : Node)
    → (compute_content_artifacts pipeline doc).content_hash ≡ pipeline.digest doc
unfolding compute_content_artifacts
artifacts-hash pipeline doc = refl

-- what Redis has after the release and the mark
abbrev pub flushed_keys : Fresh → ℕ → ℕ → Redis → Redis
flushed_keys fresh post_id content_hash r =
    mark fresh.now post_id content_hash (release_flush_lock fresh.now fresh.token post_id r)

flush_snapshot-after :
    (pipeline : Pipeline) (fresh : Fresh) (snapshot : AutosaveSnapshot) (post post' : Post)
    (in_block : Bool) (begun db db' : Db) (r : Redis)
    → let artifacts = compute_content_artifacts pipeline snapshot.content_json in
      write_snapshot pipeline fresh post post.workspace_id snapshot artifacts
          (record { in_block = in_block; begun = begun; db = db; redis = some r })
        ≡ (ok tt, record { in_block = in_block; begun = begun; db = db'; redis = some r })
      → find_post post.workspace_id post.id db' ≡ some post'
      → flush_snapshot pipeline fresh post.workspace_id snapshot post
          (record { in_block = in_block; begun = begun; db = db; redis = some r })
        ≡ (
          ok (some post'),
          record {
            in_block = in_block;
            begun = begun;
            db = db';
            redis = some (flushed_keys fresh post.id artifacts.content_hash r);
          },
        )
unfolding flush_snapshot load_post_or_raise
flush_snapshot-after pipeline fresh snapshot post post' in_block begun db db' r written found =
    rw (written, found) refl

flush_one-after :
    (pipeline : Pipeline) (fresh : Fresh) (snapshot : AutosaveSnapshot) (post : Post)
    (in_block : Bool) (begun db : Db) (r : Redis)
    → get fresh.now post.id r ≡ some snapshot
    → is_to_flush post.workspace_id snapshot ≡ true
    → acquired fresh post.id (some r) ≡ true
    → find_post post.workspace_id post.id db ≡ some post
    → flush_one pipeline fresh post.workspace_id post.id
        (record { in_block = in_block; begun = begun; db = db; redis = some r })
      ≡ flush_snapshot pipeline fresh post.workspace_id snapshot post (record {
        in_block = in_block;
        begun = begun;
        db = db;
        redis = some (lock fresh post.id r);
      })
unfolding flush_one flush_dirty load_post_or_raise
flush_one-after pipeline fresh snapshot post in_block begun db r found to_flush free loaded =
    rw (flush_one, found, to_flush, loaded, free) refl

-- The state after a flush that nothing interferes with.
pub flush_one-state :
    (pipeline : Pipeline) (fresh : Fresh) (snapshot : AutosaveSnapshot) (post : Post)
    (in_block : Bool) (begun db : Db) (r : Redis)
    → get fresh.now post.id r ≡ some snapshot
    → is_to_flush post.workspace_id snapshot ≡ true
    → acquired fresh post.id (some r) ≡ true
    → fresh.rivals ≡ []
    → first (is_live_post post.id) db.posts ≡ some post
    → is_refused db.posts post ≡ false
    → let artifacts = compute_content_artifacts pipeline snapshot.content_json in
      (db' : Db) × (flush_one pipeline fresh post.workspace_id post.id
          (record { in_block = in_block; begun = begun; db = db; redis = some r })
        ≡ (
          ok (some (with_fingerprint artifacts post)),
          record {
            in_block = in_block;
            begun = begun;
            db = db';
            redis = some (flushed_keys fresh post.id artifacts.content_hash (lock fresh post.id r));
          },
        ))
      × (find_post post.workspace_id post.id db' ≡ some (with_fingerprint artifacts post))
      × (c : PostContent) × (find_content post.id db' ≡ some c)
      × Holds snapshot.content_json artifacts.content_html artifacts.content_text c
unfolding find_content
flush_one-state pipeline fresh snapshot post in_block begun db r found to_flush free alone row
      accepted =
    let artifacts = compute_content_artifacts pipeline snapshot.content_json in
    let f = with_fingerprint artifacts in
    let r' = lock fresh post.id r in
    let s : State = record { in_block = in_block; begun = begun; db = db; redis = some r' } in
    let loaded = find_post-live post.workspace_id post.id db post row refl in
    let here = find_post-any post.workspace_id post.id db post loaded in
    let (contents, versions, written, c, first_c, holds) =
      write_snapshot-succeeds pipeline fresh post.workspace_id snapshot post s alone row here.0
        accepted in
    let db' = (with_versions versions (with_posts post.id f (with_contents contents s))).db in
    let reloaded =
      find_post_same post.workspace_id post.id db' (with_posts post.id f s).db refl
      ∙ with_posts-find_post post.workspace_id post.id f s post (λ p. (refl, refl, refl)) loaded in
    let after =
      flush_one-after pipeline fresh snapshot post in_block begun db r found to_flush free loaded
      ∙ flush_snapshot-after pipeline fresh snapshot post (f post) in_block begun db db' r' written
          reloaded in
    (db', after, reloaded, c, first_c, holds)

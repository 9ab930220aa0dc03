-- ===== src/Posts/Autosave.antt =====
-- PostAutosaveService (apps/blog/services/_autosave_service.py) and sweep_once of
-- apps/blog/sweepers/_autosave.py. The clock, the lock's token, the id of a new content row and the other
-- sessions' version rows are arguments. The cache's invalidation changes no row, and a cached rendering
-- is what rendering gives.
pub mod Flush
pub mod Starved
use fastapi_base.Prelude.{
  ℕ, ◌+◌, ◌==◌, leb, Bool, true, false, ◌&&◌, ◌||◌, not, Option, none, some, is_none, is_num, List,
  [], ◌∷◌, Text, same_text, Result, ok, err, gets, pure, raise, raise_if, or_raise, modify,
  if◌then◌else◌, ◌>>=◌, ◌>>◌, length,
}
use fastapi_base.Posts.Model.{
  Post, PostContent, PostVersion, PostStatus, Db, State, Redis, AutosaveSnapshot, Action,
  same_status, post_not_found, autosave_unavailable, autosave_on_archived,
  invalid_status_transition, autosave_flush_lock_ttl, Error,
}
use fastapi_base.Posts.Store.{
  get, save, mark_flushed, acquire_flush_lock, release_flush_lock, is_dirty,
}
use fastapi_base.Posts.Content.{
  Pipeline, ContentArtifacts, compute_content_artifacts, reading_minutes_of, word_count_of,
}
use fastapi_base.Posts.Repository.{find_post, find_content, update_post}
use fastapi_base.Posts.Versions.{find_latest_for_post}
use fastapi_base.Posts.Writer.{upsert_content_for_flush, persist_snapshot}
use fastapi_base.Tiptap.Extract.{Node, extract_text}

pub record Fresh : Type 0 where
  pub now : ℕ
  pub token : ℕ
  pub content_id : ℕ
  pub rivals : List (List PostVersion)

pub record AutosaveResult : Type 0 where
  pub content_hash : ℕ
  pub word_count : ℕ
  pub reading_minutes : ℕ
  pub updated_at : ℕ
  pub persisted : Bool

abbrev pub map_redis : (Redis → Redis) → Option Redis → Option Redis
map_redis f none = none
map_redis f (some r) = some (f r)

abbrev pub on_redis : (Redis → Redis) → State → State
on_redis f s = record s { redis = map_redis f s.redis }

unfoldable pub load_post_or_raise : ℕ → ℕ → Action Post
load_post_or_raise workspace_id post_id = do
  post ← gets (λ s. find_post workspace_id post_id s.db)
  or_raise post post_not_found

-- AutosaveStore.get, which gives none when Redis is off
abbrev pub get_snapshot : ℕ → ℕ → State → Option AutosaveSnapshot
get_snapshot now post_id s = elim s.redis [ none ↦ none | some r ↦ get now post_id r ]

abbrev pub is_unchanged : Post → ℕ → Option PostVersion → Bool
is_unchanged post content_hash none = false
is_unchanged post content_hash (some previous) =
    is_num previous.content_hash content_hash && same_text previous.title post.title

abbrev pub is_publish_transition : Post → Option PostVersion → Bool
is_publish_transition post none = same_status post.status PostStatus.published
is_publish_transition post (some previous) =
    same_status post.status PostStatus.published
    && not (same_status previous.status_at_save PostStatus.published)

abbrev pub with_fingerprint : ContentArtifacts → Post → Post
with_fingerprint artifacts p = record p {
  content_hash = some artifacts.content_hash;
  word_count = some artifacts.word_count;
  reading_minutes = some artifacts.reading_minutes;
}

-- the context manager: the lock is given back also when the body raises
abbrev pub release_after : {A : Type 0} → Fresh → ℕ → Action A → Action A
release_after fresh post_id body s =
    let (r, s') = body s in (r, on_redis (release_flush_lock fresh.now fresh.token post_id) s')

abbrev pub mark : ℕ → ℕ → ℕ → Redis → Redis
mark now post_id content_hash r = (mark_flushed now post_id content_hash r).1

abbrev pub acquired : Fresh → ℕ → Option Redis → Bool
acquired fresh post_id none = false
acquired fresh post_id (some r) =
    (acquire_flush_lock fresh.now autosave_flush_lock_ttl fresh.token post_id r).0

abbrev pub lock : Fresh → ℕ → Redis → Redis
lock fresh post_id r =
    (acquire_flush_lock fresh.now autosave_flush_lock_ttl fresh.token post_id r).1

-- a snapshot that there is something to flush of
abbrev pub is_to_flush : ℕ → AutosaveSnapshot → Bool
is_to_flush workspace_id snapshot = is_dirty snapshot && snapshot.workspace_id == workspace_id

-- a session of its own, whose transaction is a block's in a sweep and not in a request: commit at the end, roll back on a raise; Redis keeps what was written
abbrev pub end_session : {A : Type 0} → Bool → Result Error A × State → Result Error A × State
end_session before (ok a, s) = (ok a, record s { in_block = before; begun = s.db })
end_session before (err e, s) = (err e, record s { in_block = before; db = s.begun })

abbrev pub in_session : {A : Type 0} → Bool → Action A → Action A
in_session in_block m s =
    end_session s.in_block (m (record s { in_block = in_block; begun = s.db }))

abbrev pub is_some_dirty : Option AutosaveSnapshot → Bool
is_some_dirty none = false
is_some_dirty (some snapshot) = is_dirty snapshot

abbrev pub workspace_of : Option AutosaveSnapshot → ℕ
workspace_of none = 0
workspace_of (some snapshot) = snapshot.workspace_id

abbrev pub is_flushed : Result Error (Option Post) → Bool
is_flushed (ok post) = not (is_none post)
is_flushed (err e) = false

abbrev pub dirty_members : Option Redis → List ℕ
dirty_members none = []
dirty_members (some r) = r.dirty

module _ (pipeline : Pipeline) where
  abbrev pub new_snapshot : ℕ → ℕ → ℕ → ℕ → Node → AutosaveSnapshot
  new_snapshot now workspace_id post_id author_id doc = record {
    post_id = post_id;
    workspace_id = workspace_id;
    author_id = author_id;
    content_json = doc;
    content_hash = pipeline.digest doc;
    flushed_hash = none;
    word_count = word_count_of pipeline (extract_text pipeline.is_space doc);
    updated_at = now;
    expires_at = now;
  }

  abbrev pub autosaved : ℕ → Node → Bool → AutosaveResult
  autosaved now doc persisted =
      let word_count = word_count_of pipeline (extract_text pipeline.is_space doc) in
      record {
        content_hash = pipeline.digest doc;
        word_count = word_count;
        reading_minutes = reading_minutes_of word_count;
        updated_at = now;
        persisted = persisted;
      }

  unfoldable pub save_unless_persisted : ℕ → ℕ → ℕ → ℕ → Node → Option ℕ → Action AutosaveResult
  save_unless_persisted now workspace_id post_id author_id doc content_hash =
      if is_num content_hash (pipeline.digest doc) then pure (autosaved now doc true) else (do
        modify (on_redis (save now (new_snapshot now workspace_id post_id author_id doc)))
        pure (autosaved now doc false))

  -- the row read by find_autosave_state is the post that find_post gives
  unfoldable pub autosave : ℕ → ℕ → ℕ → ℕ → Node → Action AutosaveResult
  autosave now workspace_id post_id author_id doc = do
    redis ← gets (λ s. s.redis)
    raise_if (is_none redis) autosave_unavailable
    found ← gets (λ s. find_post workspace_id post_id s.db)
    state ← or_raise found post_not_found
    raise_if (same_status state.status PostStatus.archived) autosave_on_archived
    raise_if (not (same_status state.status PostStatus.draft)) invalid_status_transition
    save_unless_persisted now workspace_id post_id author_id doc state.content_hash

  unfoldable pub write_post_version :
      List (List PostVersion) → Post → ℕ → AutosaveSnapshot → ContentArtifacts → Action Unit
  write_post_version rivals post workspace_id snapshot artifacts = do
    previous ← gets (λ s. find_latest_for_post post.id s.db)
    if is_unchanged post artifacts.content_hash previous
        then pure tt
        else persist_snapshot rivals post workspace_id artifacts.content_text
            (some artifacts.content_hash) (pipeline.compress snapshot.content_json)
            snapshot.author_id (is_publish_transition post previous) post.status

  -- the statements under the lock
  unfoldable pub write_snapshot :
      Fresh → Post → ℕ → AutosaveSnapshot → ContentArtifacts → Action Unit
  write_snapshot fresh post workspace_id snapshot artifacts = do
    upsert_content_for_flush fresh.content_id post.id snapshot.content_json artifacts.content_html
        artifacts.content_text
    update_post post.id (with_fingerprint artifacts)
    write_post_version fresh.rivals post workspace_id snapshot artifacts

  unfoldable pub flush_snapshot : Fresh → ℕ → AutosaveSnapshot → Post → Action (Option Post)
  flush_snapshot fresh workspace_id snapshot post =
      let artifacts = compute_content_artifacts pipeline snapshot.content_json in
      do
        release_after fresh post.id (write_snapshot fresh post workspace_id snapshot artifacts)
        modify (on_redis (mark fresh.now post.id artifacts.content_hash))
        reloaded ← load_post_or_raise workspace_id post.id
        pure (some reloaded)

  unfoldable pub flush_dirty : Fresh → ℕ → ℕ → AutosaveSnapshot → Action (Option Post)
  flush_dirty fresh workspace_id post_id snapshot = do
    post ← load_post_or_raise workspace_id post_id
    got_lock ← gets (λ s. acquired fresh post_id s.redis)
    modify (on_redis (lock fresh post_id))
    if got_lock then flush_snapshot fresh workspace_id snapshot post else pure none

  unfoldable pub flush_one : Fresh → ℕ → ℕ → Action (Option Post)
  flush_one fresh workspace_id post_id s = elim (get_snapshot fresh.now post_id s) [
    | none ↦ pure none s
    | some snapshot ↦
        (if is_to_flush workspace_id snapshot
            then flush_dirty fresh workspace_id post_id snapshot
            else pure none)
          s
  ]

  -- The loop over the members that SSCAN gives. A member that is clean goes on without the test of
  -- the batch size.
  unfoldable pub sweep_members : (ℕ → Fresh) → ℕ → ℕ → ℕ → List ℕ → State → ℕ × State
  sweep_members fresh batch_size seen flushed [] s = (flushed, s)
  sweep_members fresh batch_size seen flushed (post_id ∷ rest) s =
      let snapshot = get_snapshot (fresh post_id).now post_id s in
      let (r, s') = in_session true (flush_one (fresh post_id) (workspace_of snapshot) post_id) s in
      let flushed' = flushed + (if is_flushed r then 1 else 0) in
      let skipped = sweep_members fresh batch_size (seen + 1) flushed rest s in
      let later = sweep_members fresh batch_size (seen + 1) flushed' rest s' in
      if not (is_some_dirty snapshot)
      then skipped
      else if leb batch_size (seen + 1)
      then (flushed', s')
      else later

  unfoldable pub sweep_once : (ℕ → Fresh) → ℕ → State → ℕ × State
  sweep_once fresh batch_size s = sweep_members fresh batch_size 0 0 (dirty_members s.redis) s

-- ===== src/Posts/Service/Refused.antt =====
-- A publish that is refused after it flushed the autosave.
use fastapi_base.Prelude.{
  Bool, ℕ, ◌≡◌, refl, ap, ◌∙◌, ltb, ◌==◌, true, false, Option, some, [], length, ok, err, first,
  Bool-cases, inl, inr,
}
use fastapi_base.Posts.Model.{
  Post, PostContent, State, Db, Redis, AutosaveSnapshot, publish_content, min_publish_body_chars,
}
use fastapi_base.Posts.Content.{Pipeline, compute_content_artifacts, ensure_publish_ready}
use fastapi_base.Posts.Repository.{is_live_post, is_refused, find_post, find_content}
use fastapi_base.Posts.Store.{get}
use fastapi_base.Posts.Store.Marking.{marked}
use fastapi_base.Posts.Autosave.{
  Fresh, load_post_or_raise, get_snapshot, flush_one, is_to_flush, acquired, lock, end_session,
  in_session, with_fingerprint,
}
use fastapi_base.Posts.Autosave.Flush.{
  flushed_keys, flush_one-state, marked-snapshot, artifacts-hash,
}
use fastapi_base.Posts.Service.{is_publishable, publish, publish_flushed}
use fastapi_base.Tiptap.Extract.{extract_text}

ensure_publish_ready_short :
    (pipeline : Pipeline) (post : Post) (c : PostContent)
    → ltb (length (pipeline.strip c.content_text)) min_publish_body_chars ≡ true
    → ensure_publish_ready pipeline post (some c) ≡ err publish_content
unfolding ensure_publish_ready
ensure_publish_ready_short pipeline post c short =
    elim (Bool-cases (length (pipeline.strip post.title) == 0)) [
      | inl e ↦ rw e refl
      | inr e ↦ rw (e, short) refl
    ]

publish_flushed_short :
    (pipeline : Pipeline) (fresh : Fresh) (workspace_id post_id : ℕ) (s : State) (post : Post)
    (c : PostContent)
    → find_post workspace_id post_id s.db ≡ some post
    → find_content post_id s.db ≡ some c
    → is_publishable post.status ≡ true
    → ltb (length (pipeline.strip c.content_text)) min_publish_body_chars ≡ true
    → publish_flushed pipeline fresh workspace_id post_id s ≡ (err publish_content, s)
unfolding publish_flushed load_post_or_raise
publish_flushed_short pipeline fresh workspace_id post_id s post c found content draft short =
    rw (found, draft, content, ensure_publish_ready_short pipeline post c short) refl

artifacts-text :
    (pipeline : Pipeline) (snapshot : AutosaveSnapshot)
    → (compute_content_artifacts pipeline snapshot.content_json).content_text
      ≡ extract_text pipeline.is_space snapshot.content_json
unfolding compute_content_artifacts
artifacts-text pipeline snapshot = refl

publish_refused :
    (pipeline : Pipeline) (fresh : Fresh) (workspace_id post_id : ℕ) (s s' : State)
    {flushed : Option Post}
    → flush_one pipeline fresh workspace_id post_id s ≡ (ok flushed, s')
    → publish_flushed pipeline fresh workspace_id post_id s' ≡ (err publish_content, s')
    → publish pipeline fresh workspace_id post_id s ≡ (err publish_content, s')
unfolding publish
publish_refused pipeline fresh workspace_id post_id s s' flushed refused =
    rw (flushed, refused) refl

-- When the body that is autosaved is too short to publish, a publish request that flushes it is refused
-- and leaves the database as it was, without the body; yet the snapshot in Redis is marked as flushed,
-- so that no later sweep writes it.
pub publish-loses :
    (pipeline : Pipeline) (fresh : Fresh) (snapshot : AutosaveSnapshot) (post : Post)
    (in_block : Bool) (begun db : Db) (r : Redis)
    → get fresh.now post.id r ≡ some snapshot
    → is_to_flush post.workspace_id snapshot ≡ true
    → snapshot.content_hash ≡ pipeline.digest snapshot.content_json
    → acquired fresh post.id (some r) ≡ true
    → fresh.rivals ≡ []
    → first (is_live_post post.id) db.posts ≡ some post
    → is_refused db.posts post ≡ false
    → is_publishable post.status ≡ true
    → ltb
        (length (pipeline.strip (extract_text pipeline.is_space snapshot.content_json)))
        min_publish_body_chars
      ≡ true
    → let (result, s') =
        in_session false
          (publish pipeline fresh post.workspace_id post.id)
          (record { in_block = in_block; begun = begun; db = db; redis = some r }) in
      (result ≡ err publish_content)
      × (s'.db ≡ db)
      × (get_snapshot fresh.now post.id s'
          ≡ some (marked (pipeline.digest snapshot.content_json) snapshot))
publish-loses pipeline fresh snapshot post in_block begun db r found to_flush hash free alone row
      accepted draft short =
    let (db', after, loaded, c, content, holds) =
      flush_one-state pipeline fresh snapshot post false db db r found to_flush free alone row
        accepted in
    let text = holds.2 ∙ artifacts-text pipeline snapshot in
    let short' : ltb (length (pipeline.strip c.content_text)) min_publish_body_chars ≡ true =
      rw text short in
    let digest = artifacts-hash pipeline snapshot.content_json in
    let clean =
      marked-snapshot fresh post.id (pipeline.digest snapshot.content_json) snapshot r found hash in
    let artifacts = compute_content_artifacts pipeline snapshot.content_json in
    let s' : State = record {
      in_block = false;
      begun = db;
      db = db';
      redis = some (flushed_keys fresh post.id artifacts.content_hash (lock fresh post.id r));
    } in
    let refused =
      publish_flushed_short pipeline fresh post.workspace_id post.id s'
        (with_fingerprint artifacts post) c loaded content draft short' in
    let begun_db : State = record { in_block = false; begun = db; db = db; redis = some r } in
    let raised =
      publish_refused pipeline fresh post.workspace_id post.id begun_db s' after refused in
    let ended = ap (end_session in_block) raised in rw (ended, digest) (refl, refl, clean)

-- ===== src/Posts/Model.antt =====
-- The rows of apps/blog/models.py that the post services write (the counters of a post are in
-- Engagement), the errors of apps/blog/exceptions.py that they raise, and the state that they work on:
-- the database, the database at the start of the transaction, and Redis. An id, an instant and a
-- content hash are numbers; the hash of no content, the empty string, is `none`.
use fastapi_base.Prelude.{ℕ, Bool, true, false, Option, List, Call, Text}
pub use fastapi_base.Engagement.Model.{PostStatus}
use fastapi_base.Tiptap.Extract.{Node}

abbrev pub same_status : PostStatus → PostStatus → Bool
same_status PostStatus.draft PostStatus.draft = true
same_status PostStatus.published PostStatus.published = true
same_status PostStatus.archived PostStatus.archived = true
same_status _ _ = false

pub record HeroQuote : Type 0 where
  pub text : Text
  pub author : Option Text
  pub source_url : Option Text

pub record Post : Type 0 where
  pub id : ℕ
  pub workspace_id : ℕ
  pub author_id : ℕ
  pub category_id : Option ℕ
  pub title : Text
  pub slug : Text
  pub excerpt : Option Text
  pub cover_image_url : Option Text
  pub status : PostStatus
  pub published_at : Option ℕ
  pub reading_minutes : Option ℕ
  pub word_count : Option ℕ
  pub hero_quote : Option HeroQuote
  pub meta_title : Option Text
  pub meta_description : Option Text
  pub content_hash : Option ℕ
  pub deleted_at : Option ℕ
  pub created_at : ℕ

pub record PostContent : Type 0 where
  pub id : ℕ
  pub post_id : ℕ
  pub content_json : Node
  pub content_html : Text
  pub content_text : Text

pub record PostVersion : Type 0 where
  pub post_id : ℕ
  pub workspace_id : ℕ
  pub version : ℕ
  pub title : Text
  pub content_json_compressed : List ℕ
  pub content_text : Text
  pub content_hash : Option ℕ
  pub created_by : ℕ
  pub change_note : Option Text
  pub is_published_snapshot : Bool
  pub is_restored : Bool
  pub status_at_save : PostStatus

pub record Category : Type 0 where
  pub id : ℕ
  pub workspace_id : ℕ
  pub name : Text
  pub slug : Text
  pub description : Option Text
  pub display_order : ℕ
  pub is_active : Bool
  pub deleted_at : Option ℕ
  pub created_at : ℕ

pub record Tag : Type 0 where
  pub id : ℕ
  pub workspace_id : ℕ
  pub name : Text
  pub slug : Text

pub record PostTag : Type 0 where
  pub post_id : ℕ
  pub tag_id : ℕ

pub record Db : Type 0 where
  pub posts : List Post
  pub contents : List PostContent
  pub versions : List PostVersion
  pub categories : List Category
  pub tags : List Tag
  pub post_tags : List PostTag

-- the HASH of a post; it is gone from `expires_at` on
pub record AutosaveSnapshot : Type 0 where
  pub post_id : ℕ
  pub workspace_id : ℕ
  pub author_id : ℕ
  pub content_json : Node
  pub content_hash : ℕ
  pub flushed_hash : Option ℕ
  pub word_count : ℕ
  pub updated_at : ℕ
  pub expires_at : ℕ

-- a string key with a TTL: the token that holds it, until `expires_at`
pub record Lease : Type 0 where
  pub token : ℕ
  pub expires_at : ℕ

-- `snapshots` has the HASH and `locks` the flush lock of each post id, `dirty` the members of the set in
-- SSCAN's order
pub record Redis : Type 0 where
  pub snapshots : ℕ → Option AutosaveSnapshot
  pub dirty : List ℕ
  pub locks : ℕ → Option Lease

pub record State : Type 0 where
  -- the transaction is that of an `async with session.begin()`, which nothing follows after a rollback
  pub in_block : Bool
  pub begun : Db
  pub db : Db
  pub redis : Option Redis

pub data Error : Type 0 where
  post_not_found slug_conflict too_many_tags resource_workspace_mismatch : Error
  invalid_status_transition publish_content autosave_unavailable autosave_on_archived : Error
  version_not_found version_mismatch version_conflict : Error
  version_content_unreadable version_diff_too_large : Error
  category_not_found category_slug_conflict tag_not_found tag_slug_conflict : Error
  -- SQLAlchemy's InvalidRequestError: a statement in a block whose transaction is over
  closed_transaction : Error
  -- a constraint of a table refused the row
  integrity_error : Error

abbrev pub Action : Type 0 → Type 0
Action = Call State Error

abbrev pub autosave_ttl_seconds : ℕ
autosave_ttl_seconds = 604800

abbrev pub autosave_flush_lock_ttl : ℕ
autosave_flush_lock_ttl = 30

abbrev pub words_per_minute : ℕ
words_per_minute = 200

abbrev pub max_tags_per_post : ℕ
max_tags_per_post = 10

abbrev pub min_publish_body_chars : ℕ
min_publish_body_chars = 50

abbrev pub post_version_insert_retry_limit : ℕ
post_version_insert_retry_limit = 3

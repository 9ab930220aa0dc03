-- ===== src/Posts/History.antt =====
-- PostVersionService (apps/blog/services/_versions.py) and diff_versions of apps/blog/utils.py. The names
-- of the authors, and the note that a restore without a note gets, are arguments.
pub mod Diff
pub mod Restored
use fastapi_base.Prelude.{
  ℕ, ◌+◌, ◌==◌, ltb, Bool, true, false, ◌&&◌, ◌||◌, not, Option, none, some, is_none, List, [], ◌∷◌,
  ◌++◌, map, Text, Result, ok, err, gets, lift, pure, raise_if, or_raise, if◌then◌else◌, ◌>>=◌,
  ◌>>◌, same_text, get,
}
use fastapi_base.Posts.Model.{
  Post, PostVersion, PostStatus, State, Db, Action, version_not_found, version_mismatch,
}
use fastapi_base.Posts.Content.{
  Pipeline, ContentArtifacts, compute_content_artifacts, decompress_content_json,
}
use fastapi_base.Posts.Repository.{find_content, update_post}
use fastapi_base.Posts.Versions.{find_by_post_and_version, list_for_post}
use fastapi_base.Posts.Writer.{write_body, insert_version_row}
use fastapi_base.Posts.Autosave.{Fresh, load_post_or_raise}
use fastapi_base.Posts.History.Diff.{Opcode, CompareVersionsResult, diff_versions}
use fastapi_base.Tiptap.Extract.{Node}

pub record PostVersionAuthor : Type 0 where
  pub id : ℕ
  pub username : Text

pub record PostVersionResponse : Type 0 where
  pub post_id : ℕ
  pub version : ℕ
  pub title : Text
  pub content_hash : Option ℕ
  pub change_note : Option Text
  pub is_published_snapshot : Bool
  pub is_restored : Bool
  pub status_at_save : PostStatus
  pub created_by : PostVersionAuthor

pub record PostVersionDetailResponse : Type 0 where
  pub base : PostVersionResponse
  pub content_json : Node
  pub content_text : Text

pub record RestoreVersionResult : Type 0 where
  pub post_id : ℕ
  pub restored_from_version : ℕ
  pub new_version : PostVersionResponse

-- "(deleted)"
abbrev pub deleted_name : Text
deleted_name = 40 ∷ 100 ∷ 101 ∷ 108 ∷ 101 ∷ 116 ∷ 101 ∷ 100 ∷ 41 ∷ []

-- `usernames` has the rows of users, also of deleted ones
abbrev pub username_or_placeholder : Option Text → Text
username_or_placeholder none = deleted_name
username_or_placeholder (some username) = username

unfoldable pub author_or_placeholder : List (ℕ × Text) → ℕ → PostVersionAuthor
author_or_placeholder usernames user_id = record {
  id = user_id;
  username = username_or_placeholder (get user_id usernames);
}

unfoldable pub to_response : List (ℕ × Text) → PostVersion → PostVersionResponse
to_response usernames row = record {
  post_id = row.post_id;
  version = row.version;
  title = row.title;
  content_hash = row.content_hash;
  change_note = row.change_note;
  is_published_snapshot = row.is_published_snapshot;
  is_restored = row.is_restored;
  status_at_save = row.status_at_save;
  created_by = author_or_placeholder usernames row.created_by;
}

-- a page, and the total
unfoldable pub list_versions :
    List (ℕ × Text) → ℕ → ℕ → ℕ → ℕ → Action (List PostVersionResponse × ℕ)
list_versions usernames workspace_id post_id limit offset = do
  load_post_or_raise workspace_id post_id
  page ← gets (λ s. list_for_post post_id limit offset s.db)
  pure (map (to_response usernames) page.0, page.1)

unfoldable pub load_version : ℕ → ℕ → Action PostVersion
load_version post_id version = do
  row ← gets (λ s. find_by_post_and_version post_id version s.db)
  or_raise row version_not_found

abbrev pub or_note : Option Text → Text → Text
or_note none default = default
or_note (some []) default = default
or_note (some (c ∷ note)) default = c ∷ note

abbrev pub restored : Text → ContentArtifacts → Post → Post
restored title artifacts p = record p {
  title = title;
  content_hash = some artifacts.content_hash;
  word_count = some artifacts.word_count;
  reading_minutes = some artifacts.reading_minutes;
}

unfoldable pub compare_versions :
    (List Text → List Text → List Opcode)
    → (Text → List Text)
    → (Text → ℕ)
    → ℕ
    → ℕ
    → ℕ
    → ℕ
    → ℕ
    → Action CompareVersionsResult
compare_versions opcodes splitlines size max_bytes workspace_id post_id from_version to_version = do
  raise_if (from_version == to_version) version_mismatch
  load_post_or_raise workspace_id post_id
  source ← load_version post_id from_version
  target ← load_version post_id to_version
  lift (
      diff_versions opcodes splitlines size max_bytes from_version source.title source.content_text
        to_version target.title target.content_text)

module _ (pipeline : Pipeline) where
  unfoldable pub get_version : List (ℕ × Text) → ℕ → ℕ → ℕ → Action PostVersionDetailResponse
  get_version usernames workspace_id post_id version = do
    load_post_or_raise workspace_id post_id
    row ← load_version post_id version
    doc ← lift (decompress_content_json pipeline row.content_json_compressed)
    pure (record {
      base = to_response usernames row;
      content_json = doc;
      content_text = row.content_text;
    })

  -- _apply_restored_body
  unfoldable pub apply_restored_body : ℕ → Post → Text → Node → ContentArtifacts → Action Unit
  apply_restored_body content_id post title doc artifacts = do
    existing_content ← gets (λ s. find_content post.id s.db)
    write_body content_id post.id doc artifacts.content_html artifacts.content_text existing_content
    update_post post.id (restored title artifacts)
    pure tt

  abbrev pub restored_row : Post → ℕ → Text → Node → ContentArtifacts → ℕ → Text → PostVersion
  restored_row post workspace_id title doc artifacts actor_id note = record {
    post_id = post.id;
    workspace_id = workspace_id;
    version = 0;
    title = title;
    content_json_compressed = pipeline.compress doc;
    content_text = artifacts.content_text;
    content_hash = some artifacts.content_hash;
    created_by = actor_id;
    change_note = some note;
    is_published_snapshot = false;
    is_restored = true;
    status_at_save = post.status;
  }

  -- `default_note` is the text with the number of the version
  unfoldable pub restore :
      List (ℕ × Text) → Fresh → ℕ → ℕ → ℕ → ℕ → Option Text → Text → Action RestoreVersionResult
  restore usernames fresh workspace_id post_id version actor_id change_note default_note = do
    post ← load_post_or_raise workspace_id post_id
    source ← load_version post_id version
    doc ← lift (decompress_content_json pipeline source.content_json_compressed)
    apply_restored_body fresh.content_id post source.title doc
        (compute_content_artifacts pipeline doc)
    new_row ← insert_version_row fresh.rivals (
        restored_row post workspace_id source.title doc (compute_content_artifacts pipeline doc)
          actor_id (or_note change_note default_note))
    pure (record {
      post_id = post.id;
      restored_from_version = version;
      new_version = to_response usernames new_row;
    })

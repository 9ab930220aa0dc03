-- ===== src/Posts/Writer.antt =====
-- PostContentWriterService (apps/blog/services/_content_writer.py). `content_id` is the id of a new row
-- of post_contents, `rivals` has the version rows of other sessions as in add_with_retry.
pub mod Body
use fastapi_base.Prelude.{
  ℕ, ◌==◌, Bool, true, false, Option, none, some, List, Text, is_num, if◌then◌else◌, pure, gets,
  ◌>>=◌, ◌>>◌,
}
use fastapi_base.Posts.Model.{
  Post, PostContent, PostVersion, PostStatus, Db, State, Action, post_version_insert_retry_limit,
}
use fastapi_base.Posts.Content.{Pipeline, ContentArtifacts, compute_content_artifacts}
use fastapi_base.Posts.Repository.{find_content, add_content, update_content}
use fastapi_base.Posts.Versions.{add_with_retry}
use fastapi_base.Tiptap.Extract.{Node}

-- what the caller passes of the new version row
abbrev pub version_row :
    Post → ℕ → List ℕ → Text → Option ℕ → ℕ → Option Text → Bool → Bool → PostStatus → PostVersion
version_row post workspace_id compressed text hash created_by note is_published is_restored status =
    record {
      post_id = post.id;
      workspace_id = workspace_id;
      version = 0;
      title = post.title;
      content_json_compressed = compressed;
      content_text = text;
      content_hash = hash;
      created_by = created_by;
      change_note = note;
      is_published_snapshot = is_published;
      is_restored = is_restored;
      status_at_save = status;
    }

abbrev pub insert_version_row : List (List PostVersion) → PostVersion → Action PostVersion
insert_version_row rivals row = add_with_retry post_version_insert_retry_limit rivals row

unfoldable pub persist_snapshot :
    List (List PostVersion)
    → Post
    → ℕ
    → Text
    → Option ℕ
    → List ℕ
    → ℕ
    → Bool
    → PostStatus
    → Action Unit
persist_snapshot rivals post workspace_id text hash compressed created_by is_published status = do
  insert_version_row rivals
      (version_row post workspace_id compressed text hash created_by none is_published false status)
  pure tt

abbrev pub with_body : Node → Text → Text → PostContent → PostContent
with_body doc html text c = record c {
  content_json = doc;
  content_html = html;
  content_text = text;
}

abbrev pub new_content : ℕ → ℕ → Node → Text → Text → PostContent
new_content content_id post_id doc html text = record {
  id = content_id;
  post_id = post_id;
  content_json = doc;
  content_html = html;
  content_text = text;
}

-- INSERT where `post.content is None`, else UPDATE
abbrev pub write_body : ℕ → ℕ → Node → Text → Text → Option PostContent → Action Unit
write_body content_id post_id doc html text none =
    add_content (new_content content_id post_id doc html text)
write_body content_id post_id doc html text (some c) = update_content c.id (with_body doc html text)

unfoldable pub upsert_content_for_flush : ℕ → ℕ → Node → Text → Text → Action Unit
upsert_content_for_flush content_id post_id doc html text = do
  existing_content ← gets (λ s. find_content post_id s.db)
  write_body content_id post_id doc html text existing_content

module _ (pipeline : Pipeline) where
  unfoldable pub write_initial :
      List (List PostVersion) → ℕ → Post → Node → ContentArtifacts → ℕ → ℕ → Action Unit
  write_initial rivals content_id post doc artifacts workspace_id author_id = do
    add_content (new_content content_id post.id doc artifacts.content_html artifacts.content_text)
    insert_version_row rivals (
        version_row post workspace_id (pipeline.compress doc) artifacts.content_text
          (some artifacts.content_hash) author_id none false false post.status)
    pure tt

  -- none where the hash is the post's
  unfoldable pub update_content_if_changed : ℕ → Post → Node → Action (Option ContentArtifacts)
  update_content_if_changed content_id post doc =
      let artifacts = compute_content_artifacts pipeline doc in
      if is_num post.content_hash artifacts.content_hash then pure none else (do
        existing_content ← gets (λ s. find_content post.id s.db)
        write_body content_id post.id doc artifacts.content_html artifacts.content_text
            existing_content
        pure (some artifacts))

-- ===== src/Posts/History/Restored.antt =====
-- A restore that nothing interferes with.
use fastapi_base.Prelude.{ℕ, ◌≡◌, true, some, List, Text, Result, ok}
use fastapi_base.Posts.Model.{Post, PostContent, PostVersion, State, Error}
use fastapi_base.Posts.Content.{Pipeline, compute_content_artifacts}
use fastapi_base.Posts.Repository.{find_post, find_content}
use fastapi_base.Posts.Versions.{find_by_post_and_version}
use fastapi_base.Posts.Writer.Body.{Holds}
use fastapi_base.Posts.History.{RestoreVersionResult, to_response, restored}
use fastapi_base.Tiptap.Extract.{Node}

-- what a restore of `source` leaves
abbrev pub IsRestored :
    Pipeline → Post → PostVersion → Node → Result Error RestoreVersionResult × State → Type 0
IsRestored pipeline post source doc r =
    let artifacts = compute_content_artifacts pipeline doc in
    let db = r.1.db in
    ((response : RestoreVersionResult) × (row : PostVersion) × (r.0 ≡ ok response)
      × (find_by_post_and_version post.id response.new_version.version db ≡ some row)
      × (row.content_json_compressed ≡ pipeline.compress doc)
      × (row.is_restored ≡ true))
    × ((c : PostContent) × (find_content post.id db ≡ some c)
        × Holds doc artifacts.content_html artifacts.content_text c)
    × (find_post post.workspace_id post.id db ≡ some (restored source.title artifacts post))
    × (find_by_post_and_version post.id source.version db ≡ some source)

abbrev answer : List (ℕ × Text) → Post → PostVersion → PostVersion → RestoreVersionResult
answer usernames post source row = record {
  post_id = post.id;
  restored_from_version = source.version;
  new_version = to_response usernames row;
}

-- ===== src/Tests/Posts.antt =====
-- The status, the versions and the tags of a small post.
use fastapi_base.Prelude.{
  ok, ℕ, ◌≤◌, ◌≡◌, refl, ◌==◌, not, false, none, some, List, [], ◌∷◌, Text, count, select, any,
  if◌then◌else◌, arith,
}
use fastapi_base.Posts.Model.{Tag, Post, PostStatus, PostVersion, Db, State}
use fastapi_base.Posts.Repository.{replace_post_tags, is_in}
use fastapi_base.Posts.Repository.Tags.{is_link, replace_post_tags-links}
use fastapi_base.Posts.Service.{with_status}
use fastapi_base.Posts.Versions.{is_eligible, max_version, add_with_retry}
use fastapi_base.Posts.Versions.Numbering.{IsUnique}
use fastapi_base.Posts.Versions.Retry.{add_with_retry-conflict}
use fastapi_base.Posts.Retention.{trim_post}
use fastapi_base.Posts.Retention.Trim.{trim_post-retains}
use fastapi_base.Posts.Retention.Newest.{trim_post-max_version}
use fastapi_base.Posts.Labels.{find_tag, find_tag_or_raise, delete_tag_row, delete_tag}
use fastapi_base.Posts.Labels.Removed.{delete_tag-gone}
use fastapi_base.Posts.History.Diff.{equal, replace, Opcode, build_diff_hunks}
use fastapi_base.Posts.History.Diff.Sides.{from_side, to_side, numbered, build_diff_hunks-sides}
use fastapi_base.Tests.Autosave.{a_draft, a_db}

abbrev a_published : Post
a_published = with_status PostStatus.published (some 5) a_draft

abbrev online : Db
online = record a_db { posts = a_published ∷ [] }

abbrev online_state : State
online_state = record { in_block = false; begun = online; db = online; redis = none }

abbrev a_version : ℕ → PostVersion
a_version version = record {
  post_id = 1;
  workspace_id = 2;
  version = version;
  title = 97 ∷ [];
  content_json_compressed = 1 ∷ [];
  content_text = [];
  content_hash = some 7;
  created_by = 4;
  change_note = none;
  is_published_snapshot = false;
  is_restored = false;
  status_at_save = PostStatus.draft;
}

abbrev two_versions : Db
two_versions = record a_db { versions = a_version 1 ∷ a_version 2 ∷ [] }

abbrev a_state : State
a_state = record { in_block = false; begun = two_versions; db = two_versions; redis = none }

two_versions-IsUnique : IsUnique two_versions.versions
two_versions-IsUnique post_id version = ground arith

-- a transaction that has published the post by then
abbrev within : State
within = record {
  in_block = false;
  begun = two_versions;
  db = record two_versions { posts = a_published ∷ [] };
  redis = none;
}

add_with_retry-conflict_example :
    let s' = (add_with_retry 3 ((a_version 3 ∷ []) ∷ []) (a_version 0) within).1 in
    (s'.db.posts ≡ a_draft ∷ []) × (s'.db.contents ≡ [])
unfolding max_version
add_with_retry-conflict_example =
    add_with_retry-conflict 2 (a_version 3 ∷ []) [] (a_version 0) within refl

trim_post-retains_example :
    let after = (trim_post 1 1 two_versions).1.versions in
    let is_exempt = λ (v : PostVersion). not (is_eligible 1 v) in
    (count (is_eligible 1) after ≤ 1)
    × (select is_exempt after ≡ select is_exempt two_versions.versions)
trim_post-retains_example = trim_post-retains 1 1 two_versions two_versions-IsUnique

trim_post-max_version_example :
    max_version 1 (trim_post 1 1 two_versions).1.versions ≡ max_version 1 two_versions.versions
trim_post-max_version_example = trim_post-max_version 1 1 two_versions (omega arith)

-- "a", "b" against "a", "c"
abbrev opcodes : List Opcode
opcodes =
    record { tag = equal; i1 = 0; i2 = 1; j1 = 0; j2 = 1 }
    ∷ record { tag = replace; i1 = 1; i2 = 2; j1 = 1; j2 = 2 }
    ∷ []

abbrev old_lines : List Text
old_lines = (97 ∷ []) ∷ (98 ∷ []) ∷ []

abbrev new_lines : List Text
new_lines = (97 ∷ []) ∷ (99 ∷ []) ∷ []

build_diff_hunks-sides_example :
    (from_side (build_diff_hunks opcodes old_lines new_lines) ≡ numbered 0 old_lines)
    × (to_side (build_diff_hunks opcodes old_lines new_lines) ≡ numbered 0 new_lines)
build_diff_hunks-sides_example = build_diff_hunks-sides opcodes old_lines new_lines (
  (refl, refl, omega arith, omega arith),
  refl,
  ((refl, refl, omega arith, omega arith), tt, (refl, refl)),
)

abbrev tagged : State
tagged = record {
  in_block = false;
  begun = a_db;
  db = record a_db { post_tags = record { post_id = 1; tag_id = 6 } ∷ [] };
  redis = none;
}

abbrev a_tag : Tag
a_tag = record { id = 6; workspace_id = 2; name = 97 ∷ []; slug = 97 ∷ [] }

abbrev labelled : State
labelled = record tagged { db = record tagged.db { tags = a_tag ∷ [] } }

labelled-ok : (delete_tag 2 6 labelled).0 ≡ ok a_tag
unfolding delete_tag find_tag_or_raise find_tag delete_tag_row
labelled-ok = refl

delete_tag-gone_example :
    let db = (delete_tag 2 6 labelled).1.db in
    (find_tag 2 6 db ≡ none) × (any (is_link 1 6) db.post_tags ≡ false)
delete_tag-gone_example = delete_tag-gone 2 6 1 labelled labelled-ok

abbrev another_tag : Tag
another_tag = record { id = 8; workspace_id = 2; name = 98 ∷ []; slug = 98 ∷ [] }

abbrev with_two_tags : State
with_two_tags = record tagged { db = record tagged.db { tags = a_tag ∷ another_tag ∷ [] } }

replace_post_tags-links_example :
    let (result, s') = replace_post_tags 1 (8 ∷ []) with_two_tags in
    (result ≡ ok tt)
    × (any (is_link 1 6) s'.db.post_tags
        ≡ (if 1 == 1 then is_in 6 (8 ∷ []) else any (is_link 1 6) with_two_tags.db.post_tags))
replace_post_tags-links_example =
    replace_post_tags-links 1 1 6 (8 ∷ []) with_two_tags refl (λ n h. ground arith)

-- ===== src/Posts/Repository.antt =====
-- The repositories of apps/blog/repositories (_post.py, _post_content.py, _category.py, _tag.py,
-- _post_tag.py), and what `add` and `update` of apps/core/database/repository/_write.py do to their
-- tables, with the tables' constraints.
pub mod Rows
pub mod Tags
use fastapi_base.Prelude.{
  ℕ, ◌==◌, Bool, true, false, ◌&&◌, ◌||◌, not, Option, none, some, map_option, List, [], ◌∷◌, ◌++◌,
  is_none, is_num, select, first, any, delete, update, Text, same_text, ok, err, map, if◌then◌else◌,
  pure, modify,
}
use fastapi_base.Posts.Model.{
  Post, PostStatus, PostContent, Category, Tag, PostTag, Db, State, Action, same_status,
  integrity_error,
}

abbrev pub has_post_id : ℕ → Post → Bool
has_post_id post_id p = p.id == post_id

abbrev pub is_live_post : ℕ → Post → Bool
is_live_post post_id p = p.id == post_id && is_none p.deleted_at

abbrev pub is_in_workspace : ℕ → ℕ → Post → Bool
is_in_workspace workspace_id post_id p =
    p.id == post_id && p.workspace_id == workspace_id && is_none p.deleted_at

-- PostRepository.find_by_id with include_deleted=False
unfoldable pub find_post : ℕ → ℕ → Db → Option Post
find_post workspace_id post_id db = first (is_in_workspace workspace_id post_id) db.posts

abbrev pub is_content_of : ℕ → PostContent → Bool
is_content_of post_id c = c.post_id == post_id

-- `post.content`
unfoldable pub find_content : ℕ → Db → Option PostContent
find_content post_id db = first (is_content_of post_id) db.contents

abbrev pub has_slug : ℕ → Text → Post → Bool
has_slug workspace_id slug p = p.workspace_id == workspace_id && same_text slug p.slug

abbrev pub has_status : Option PostStatus → Post → Bool
has_status none p = true
has_status (some status) p = same_status p.status status

abbrev pub is_not_excluded : Option ℕ → Post → Bool
is_not_excluded exclude_id p = not (is_num exclude_id p.id)

unfoldable pub find_by_slug : ℕ → Text → Option PostStatus → Option ℕ → Db → Option Post
find_by_slug workspace_id slug status exclude_id db =
    first
      (λ p.
        has_slug workspace_id slug p
        && is_none p.deleted_at
        && has_status status p
        && is_not_excluded exclude_id p)
      db.posts

abbrev pub on_db : (Db → Db) → State → State
on_db f s = record s { db = f s.db }

-- the CHECK ck_posts_published_implies_published_at
abbrev pub satisfies_check : Post → Bool
satisfies_check p = not (same_status p.status PostStatus.published) || not (is_none p.published_at)

-- INSERT INTO posts: the primary key, uq_posts_workspace_slug and the CHECK
unfoldable pub add_post : Post → Action Unit
add_post post s =
    if any (has_post_id post.id) s.db.posts
      || any (has_slug post.workspace_id post.slug) s.db.posts
      || not (satisfies_check post)
    then (err integrity_error, s)
    else (ok tt, on_db (λ db. record db { posts = db.posts ++ post ∷ [] }) s)

-- the row that an UPDATE leaves: its slug is taken by no other row, and the CHECK holds of it
abbrev pub is_refused : List Post → Post → Bool
is_refused posts post =
    any (λ p. has_slug post.workspace_id post.slug p && not (p.id == post.id)) posts
    || not (satisfies_check post)

abbrev pub refused_update : List Post → Option Post → Bool
refused_update posts none = false
refused_update posts (some post) = is_refused posts post

-- UPDATE posts SET f WHERE id AND deleted_at IS NULL RETURNING *
unfoldable pub update_post : ℕ → (Post → Post) → Action (Option Post)
update_post post_id f s =
    let row = map_option f (first (is_live_post post_id) s.db.posts) in
    if refused_update s.db.posts row
    then (err integrity_error, s)
    else (ok row, on_db (λ db. record db { posts = update (is_live_post post_id) f db.posts }) s)

-- INSERT INTO post_contents: uq_post_contents_post_id and the foreign key
unfoldable pub add_content : PostContent → Action Unit
add_content content s =
    if any (is_content_of content.post_id) s.db.contents
      || not (any (has_post_id content.post_id) s.db.posts)
    then (err integrity_error, s)
    else (ok tt, on_db (λ db. record db { contents = db.contents ++ content ∷ [] }) s)

-- UPDATE post_contents SET f WHERE id
unfoldable pub update_content : ℕ → (PostContent → PostContent) → Action Unit
update_content content_id f =
    modify (on_db (λ db. record db { contents = update (λ c. c.id == content_id) f db.contents }))

unfoldable pub find_category : ℕ → ℕ → Db → Option Category
find_category workspace_id category_id db =
    first (λ c. c.id == category_id && c.workspace_id == workspace_id && is_none c.deleted_at)
      db.categories

abbrev pub is_in : ℕ → List ℕ → Bool
is_in n ns = any (λ m. m == n) ns

-- TagRepository.list_by_ids
unfoldable pub list_by_ids : ℕ → List ℕ → Db → List Tag
list_by_ids workspace_id tag_ids db =
    select (λ t. t.workspace_id == workspace_id && is_in t.id tag_ids) db.tags

-- a list as a set: each number once
abbrev pub distinct : List ℕ → List ℕ
distinct [] = []
distinct (n ∷ ns) = let rest = distinct ns in if is_in n rest then rest else n ∷ rest

-- SELECT tag_id ... WHERE post_id
abbrev pub tags_of : ℕ → List PostTag → List ℕ
tags_of post_id post_tags = map (λ l. l.tag_id) (select (λ l. l.post_id == post_id) post_tags)

abbrev pub all_known : List Tag → List ℕ → Bool
all_known tags [] = true
all_known tags (n ∷ ns) = any (λ t. t.id == n) tags && all_known tags ns

-- the foreign keys of post_tags, for the rows of one INSERT; an empty one is not sent
abbrev pub takes_links : ℕ → List ℕ → Db → Bool
takes_links post_id [] db = true
takes_links post_id (n ∷ ns) db = any (has_post_id post_id) db.posts && all_known db.tags (n ∷ ns)

abbrev pub missing_tags : ℕ → List ℕ → Db → List ℕ
missing_tags post_id tag_ids db =
    select (λ tag_id. not (is_in tag_id (tags_of post_id db.post_tags))) (distinct tag_ids)

abbrev pub without_others : ℕ → List ℕ → Db → Db
without_others post_id tag_ids db = record db {
  post_tags = delete (λ l. l.post_id == post_id && not (is_in l.tag_id tag_ids)) db.post_tags;
}

abbrev pub with_links : ℕ → List ℕ → Db → Db
with_links post_id tag_ids db = record db {
  post_tags = db.post_tags ++ map (λ tag_id. record { post_id = post_id; tag_id = tag_id }) tag_ids;
}

-- `to_remove` is in the DELETE's condition, since it is every stored tag outside of the target
unfoldable pub replace_post_tags : ℕ → List ℕ → Action Unit
replace_post_tags post_id tag_ids s =
    let to_add = missing_tags post_id tag_ids s.db in
    let deleted = on_db (without_others post_id tag_ids) s in
    if takes_links post_id to_add s.db
    then (ok tt, on_db (with_links post_id to_add) deleted)
    else (err integrity_error, deleted)

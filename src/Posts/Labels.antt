-- ===== src/Posts/Labels.antt =====
-- TagService (apps/blog/services/_tags.py) and TagRepository (apps/blog/repositories/_tag.py) on the
-- table tags. `name_before` is the database's order of names.
pub mod Removed
use fastapi_base.Prelude.{
  ℕ, ◌==◌, Bool, true, false, ◌&&◌, ◌||◌, not, Option, none, some, is_none, is_num, map_option,
  List, [], ◌∷◌, ◌++◌, any, first, select, count, update, delete, take, drop, order_by, Text,
  same_text, ok, err, gets, pure, raise_if, or_raise, if◌then◌else◌, ◌>>=◌, ◌>>◌,
}
use fastapi_base.Posts.Model.{
  Tag, State, Db, Action, tag_not_found, tag_slug_conflict, integrity_error,
}
use fastapi_base.Posts.Repository.{on_db}
use fastapi_base.Posts.Validation.{Slugger, normalize_slug}
use fastapi_base.Posts.Service.{slug_or_title, given, normalized}
use fastapi_base.Workspace.Workspaces.{is_null, set_column}

pub record CreateTagRequest : Type 0 where
  pub name : Text
  pub slug : Option Text

pub record UpdateTagRequest : Type 0 where
  pub name : Option (Option Text)
  pub slug : Option (Option Text)

abbrev pub is_tag_slug : ℕ → Text → Tag → Bool
is_tag_slug workspace_id slug t = t.workspace_id == workspace_id && same_text slug t.slug

abbrev pub has_tag_id : ℕ → Tag → Bool
has_tag_id tag_id t = t.id == tag_id

unfoldable pub find_tag : ℕ → ℕ → Db → Option Tag
find_tag workspace_id tag_id db =
    first (λ t. t.id == tag_id && t.workspace_id == workspace_id) db.tags

unfoldable pub find_tag_by_slug : ℕ → Text → Option ℕ → Db → Option Tag
find_tag_by_slug workspace_id slug exclude_id db =
    first (λ t. is_tag_slug workspace_id slug t && not (is_num exclude_id t.id)) db.tags

-- a page in the order of the names, and the total
unfoldable pub list_tags : (Text → Text → Bool) → ℕ → ℕ → ℕ → Db → List Tag × ℕ
list_tags name_before workspace_id limit offset db =
    let is_listed = λ (t : Tag). t.workspace_id == workspace_id in
    (
      take limit
          (drop offset (order_by (λ t u. name_before t.name u.name) (select is_listed db.tags))),
      count is_listed db.tags,
    )

-- INSERT INTO tags: the primary key and uq_tags_workspace_slug
unfoldable pub add_tag : Tag → Action Unit
add_tag tag s =
    if any (has_tag_id tag.id) s.db.tags || any (is_tag_slug tag.workspace_id tag.slug) s.db.tags
    then (err integrity_error, s)
    else (ok tt, on_db (λ db. record db { tags = db.tags ++ tag ∷ [] }) s)

abbrev pub takes_tag_slug : List Tag → Option Tag → Bool
takes_tag_slug tags none = false
takes_tag_slug tags (some row) =
    any (λ t. is_tag_slug row.workspace_id row.slug t && not (t.id == row.id)) tags

-- UPDATE tags SET f WHERE id RETURNING *
unfoldable pub update_tag : ℕ → (Tag → Tag) → Action (Option Tag)
update_tag tag_id f s =
    let row = map_option f (first (has_tag_id tag_id) s.db.tags) in
    if takes_tag_slug s.db.tags row
    then (err integrity_error, s)
    else (ok row, on_db (λ db. record db { tags = update (has_tag_id tag_id) f db.tags }) s)

-- DELETE, with the links that ON DELETE CASCADE takes along
unfoldable pub delete_tag_row : ℕ → Action (Option Tag)
delete_tag_row tag_id s = (
  ok (first (has_tag_id tag_id) s.db.tags),
  on_db
      (λ db. record db {
        tags = delete (has_tag_id tag_id) db.tags;
        post_tags = delete (λ l. l.tag_id == tag_id) db.post_tags;
      })
      s,
)

unfoldable pub find_tag_or_raise : ℕ → ℕ → Action Tag
find_tag_or_raise workspace_id tag_id = do
  tag ← gets (λ s. find_tag workspace_id tag_id s.db)
  or_raise tag tag_not_found

unfoldable pub ensure_tag_slug_available : ℕ → Text → Option ℕ → Action Unit
ensure_tag_slug_available workspace_id slug exclude_id = do
  existing ← gets (λ s. find_tag_by_slug workspace_id slug exclude_id s.db)
  raise_if (not (is_none existing)) tag_slug_conflict

unfoldable pub check_tag_slug : Slugger → ℕ → ℕ → Option Text → Action Unit
check_tag_slug slugger workspace_id tag_id none = pure tt
check_tag_slug slugger workspace_id tag_id (some slug) =
    ensure_tag_slug_available workspace_id (normalize_slug slugger slug) (some tag_id)

abbrev pub with_tag_fields : Slugger → UpdateTagRequest → Tag → Tag
with_tag_fields slugger request t = record t {
  name = set_column request.name t.name;
  slug = set_column (normalized slugger request.slug) t.slug;
}

abbrev pub new_tag : ℕ → ℕ → Text → CreateTagRequest → Tag
new_tag tag_id workspace_id slug request = record {
  id = tag_id;
  workspace_id = workspace_id;
  name = request.name;
  slug = slug;
}

module _ (slugger : Slugger) where
  unfoldable pub create_tag : ℕ → ℕ → CreateTagRequest → Action Tag
  create_tag tag_id workspace_id request =
      let slug = normalize_slug slugger (slug_or_title slugger request.name request.slug) in
      do
        ensure_tag_slug_available workspace_id slug none
        add_tag (new_tag tag_id workspace_id slug request)
        pure (new_tag tag_id workspace_id slug request)

  -- both columns are NOT NULL
  unfoldable pub update_tag_fields : ℕ → ℕ → UpdateTagRequest → Action Tag
  update_tag_fields workspace_id tag_id request = do
    find_tag_or_raise workspace_id tag_id
    check_tag_slug slugger workspace_id tag_id (given request.slug)
    raise_if (is_null request.name || is_null request.slug) integrity_error
    updated ← update_tag tag_id (with_tag_fields slugger request)
    or_raise updated tag_not_found

unfoldable pub delete_tag : ℕ → ℕ → Action Tag
delete_tag workspace_id tag_id = do
  tag ← find_tag_or_raise workspace_id tag_id
  row ← delete_tag_row tag.id
  or_raise row tag_not_found

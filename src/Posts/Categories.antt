-- ===== src/Posts/Categories.antt =====
-- CategoryService (apps/blog/services/_categories.py) and CategoryRepository
-- (apps/blog/repositories/_category.py) on the table categories.
use fastapi_base.Prelude.{
  ℕ, ltb, leb, ◌==◌, Bool, true, false, ◌&&◌, ◌||◌, not, Option, none, some, is_none, is_num,
  map_option, List, [], ◌∷◌, ◌++◌, any, first, select, count, update, take, drop, order_by, Text,
  same_text, ok, err, gets, pure, raise_if, or_raise, if◌then◌else◌, ◌>>=◌, ◌>>◌,
}
use fastapi_base.Posts.Model.{
  Category, Db, Action, category_not_found, category_slug_conflict, integrity_error,
}
use fastapi_base.Posts.Repository.{find_category, on_db}
use fastapi_base.Posts.Validation.{Slugger, normalize_slug}
use fastapi_base.Posts.Service.{slug_or_title, given, normalized}
use fastapi_base.Workspace.Workspaces.{is_null, or_kept, set_column}

pub record CreateCategoryRequest : Type 0 where
  pub name : Text
  pub slug : Option Text
  pub description : Option Text
  pub display_order : ℕ
  pub is_active : Bool

-- the fields that the request set; `some none` is an explicit null
pub record UpdateCategoryRequest : Type 0 where
  pub name : Option (Option Text)
  pub slug : Option (Option Text)
  pub description : Option (Option Text)
  pub display_order : Option (Option ℕ)
  pub is_active : Option (Option Bool)

abbrev pub is_category_slug : ℕ → Text → Category → Bool
is_category_slug workspace_id slug c = c.workspace_id == workspace_id && same_text slug c.slug

unfoldable pub find_category_by_slug : ℕ → Text → Option ℕ → Db → Option Category
find_category_by_slug workspace_id slug exclude_id db =
    first
      (λ c.
        is_category_slug workspace_id slug c
        && is_none c.deleted_at
        && not (is_num exclude_id c.id))
      db.categories

abbrev pub is_listed : ℕ → Option Bool → Category → Bool
is_listed workspace_id none c = c.workspace_id == workspace_id && is_none c.deleted_at
is_listed workspace_id (some true) c =
    c.workspace_id == workspace_id && is_none c.deleted_at && c.is_active
is_listed workspace_id (some false) c =
    c.workspace_id == workspace_id && is_none c.deleted_at && not c.is_active

-- ORDER BY display_order ASC, created_at DESC
abbrev pub is_before : Category → Category → Bool
is_before c d =
    ltb c.display_order d.display_order
    || (c.display_order == d.display_order && leb d.created_at c.created_at)

-- a page, and the total
unfoldable pub list_categories : ℕ → Option Bool → ℕ → ℕ → Db → List Category × ℕ
list_categories workspace_id is_active limit offset db = (
  take limit
      (drop offset (order_by is_before (select (is_listed workspace_id is_active) db.categories))),
  count (is_listed workspace_id is_active) db.categories,
)

-- INSERT INTO categories: the primary key and uq_categories_workspace_slug
unfoldable pub add_category : Category → Action Unit
add_category category s =
    if any (λ c. c.id == category.id) s.db.categories
      || any (is_category_slug category.workspace_id category.slug) s.db.categories
    then (err integrity_error, s)
    else (ok tt, on_db (λ db. record db { categories = db.categories ++ category ∷ [] }) s)

abbrev pub is_live_category : ℕ → Category → Bool
is_live_category category_id c = c.id == category_id && is_none c.deleted_at

-- a row that an UPDATE leaves with a slug that another row has
abbrev pub takes_slug : List Category → Option Category → Bool
takes_slug categories none = false
takes_slug categories (some row) =
    any (λ c. is_category_slug row.workspace_id row.slug c && not (c.id == row.id)) categories

-- UPDATE categories SET f WHERE id AND deleted_at IS NULL RETURNING *
unfoldable pub update_category : ℕ → (Category → Category) → Action (Option Category)
update_category category_id f s =
    let row = map_option f (first (is_live_category category_id) s.db.categories) in
    if takes_slug s.db.categories row then (err integrity_error, s) else (
      ok row,
      on_db (λ db. record db { categories = update (is_live_category category_id) f db.categories })
          s,
    )

unfoldable pub find_category_or_raise : ℕ → ℕ → Action Category
find_category_or_raise workspace_id category_id = do
  category ← gets (λ s. find_category workspace_id category_id s.db)
  or_raise category category_not_found

unfoldable pub ensure_category_slug_available : ℕ → Text → Option ℕ → Action Unit
ensure_category_slug_available workspace_id slug exclude_id = do
  existing ← gets (λ s. find_category_by_slug workspace_id slug exclude_id s.db)
  raise_if (not (is_none existing)) category_slug_conflict

abbrev pub new_category : ℕ → ℕ → ℕ → Text → CreateCategoryRequest → Category
new_category now category_id workspace_id slug request = record {
  id = category_id;
  workspace_id = workspace_id;
  name = request.name;
  slug = slug;
  description = request.description;
  display_order = request.display_order;
  is_active = request.is_active;
  deleted_at = none;
  created_at = now;
}

abbrev pub with_category_fields : Slugger → UpdateCategoryRequest → Category → Category
with_category_fields slugger request c = record c {
  name = set_column request.name c.name;
  slug = set_column (normalized slugger request.slug) c.slug;
  description = or_kept request.description c.description;
  display_order = set_column request.display_order c.display_order;
  is_active = set_column request.is_active c.is_active;
}

unfoldable pub check_category_slug : Slugger → ℕ → ℕ → Option Text → Action Unit
check_category_slug slugger workspace_id category_id none = pure tt
check_category_slug slugger workspace_id category_id (some slug) =
    ensure_category_slug_available workspace_id (normalize_slug slugger slug) (some category_id)

module _ (slugger : Slugger) where
  unfoldable pub create_category : ℕ → ℕ → ℕ → CreateCategoryRequest → Action Category
  create_category now category_id workspace_id request =
      let slug = normalize_slug slugger (slug_or_title slugger request.name request.slug) in
      do
        ensure_category_slug_available workspace_id slug none
        add_category (new_category now category_id workspace_id slug request)
        pure (new_category now category_id workspace_id slug request)

  -- the columns but `description` are NOT NULL
  unfoldable pub update_category_fields : ℕ → ℕ → UpdateCategoryRequest → Action Category
  update_category_fields workspace_id category_id request = do
    find_category_or_raise workspace_id category_id
    check_category_slug slugger workspace_id category_id (given request.slug)
    raise_if
        (is_null request.name
          || is_null request.slug
          || is_null request.display_order
          || is_null request.is_active)
        integrity_error
    updated ← update_category category_id (with_category_fields slugger request)
    or_raise updated category_not_found

abbrev pub deleted_category : ℕ → Category → Category
deleted_category now c = record c { deleted_at = some now }

unfoldable pub soft_delete_category : ℕ → ℕ → ℕ → Action Category
soft_delete_category now workspace_id category_id = do
  find_category_or_raise workspace_id category_id
  row ← update_category category_id (deleted_category now)
  or_raise row category_not_found

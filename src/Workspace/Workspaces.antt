-- ===== src/Workspace/Workspaces.antt =====
-- WorkspaceService (apps/workspace/services.py). `str.lower`, `str.strip`, the clock and the ids of the
-- new rows are arguments.
use fastapi_base.Prelude.{
  ℕ, Bool, false, Option, none, some, is_none, not, Text, lift, gets, pure, raise_if, or_raise,
  ◌>>=◌, ◌>>◌, ◌||◌,
}
use fastapi_base.Workspace.Model.{
  Workspace, WorkspaceMember, WorkspaceRole, Action, workspace_not_found, slug_conflict,
  integrity_error,
}
use fastapi_base.Workspace.Slugs.{validate_slug}
use fastapi_base.Workspace.Repository.{
  find_workspace, find_by_slug, add_workspace, add_membership, update_workspace,
}

pub record CreateWorkspaceRequest : Type 0 where
  pub slug : Text
  pub name : Text
  pub description : Option Text

-- the fields that the request set, as `model_dump(exclude_unset=True)` gives them; `some none` is an
-- explicit null
pub record UpdateWorkspaceRequest : Type 0 where
  pub name : Option (Option Text)
  pub description : Option (Option Text)
  pub allow_anonymous_comments : Option (Option Bool)

-- the ids of the two new rows, and the time
pub record Fresh : Type 0 where
  pub workspace_id : ℕ
  pub member_id : ℕ
  pub now : ℕ

unfoldable pub find_or_raise : ℕ → Action Workspace
find_or_raise workspace_id = do
  found ← gets (find_workspace workspace_id)
  or_raise found workspace_not_found

unfoldable pub ensure_slug_available : Text → Action Unit
ensure_slug_available slug = do
  existing ← gets (find_by_slug slug)
  raise_if (not (is_none existing)) slug_conflict

abbrev pub new_workspace : Fresh → ℕ → Text → CreateWorkspaceRequest → Workspace
new_workspace fresh owner_user_id slug payload = record {
  id = fresh.workspace_id;
  slug = slug;
  name = payload.name;
  description = payload.description;
  owner_user_id = owner_user_id;
  allow_anonymous_comments = false;
  deleted_at = none;
  created_at = fresh.now;
}

abbrev pub bootstrap_membership : Fresh → ℕ → WorkspaceMember
bootstrap_membership fresh owner_user_id = record {
  id = fresh.member_id;
  workspace_id = fresh.workspace_id;
  user_id = owner_user_id;
  role = WorkspaceRole.owner;
  invited_by_user_id = none;
  created_at = fresh.now;
}

unfoldable pub create :
    (Text → Text) → (Text → Text) → Fresh → ℕ → CreateWorkspaceRequest → Action Workspace
unfolding ensure_slug_available
create lower strip fresh owner_user_id payload = do
  lift (validate_slug (strip (lower payload.slug)))
  ensure_slug_available (strip (lower payload.slug))
  add_workspace (new_workspace fresh owner_user_id (strip (lower payload.slug)) payload)
  add_membership (bootstrap_membership fresh owner_user_id)
  pure (new_workspace fresh owner_user_id (strip (lower payload.slug)) payload)

unfoldable pub get_by_slug : Text → Action Workspace
get_by_slug slug = do found ← gets (find_by_slug slug); or_raise found workspace_not_found

abbrev pub is_null {ℓ} : {A : Type ℓ} → Option (Option A) → Bool
is_null none = false
is_null (some o) = is_none o

abbrev pub or_kept {ℓ} : {A : Type ℓ} → Option A → A → A
or_kept none old = old
or_kept (some new) old = new

-- a column that is NOT NULL, once no null is in the payload
abbrev pub set_column {ℓ} : {A : Type ℓ} → Option (Option A) → A → A
set_column none old = old
set_column (some none) old = old
set_column (some (some new)) old = new

abbrev pub with_payload : UpdateWorkspaceRequest → Workspace → Workspace
with_payload payload w = record w {
  name = set_column payload.name w.name;
  description = or_kept payload.description w.description;
  allow_anonymous_comments = set_column payload.allow_anonymous_comments w.allow_anonymous_comments;
}

-- The columns `name` and `allow_anonymous_comments` are NOT NULL: an explicit null is refused.
unfoldable pub update : ℕ → UpdateWorkspaceRequest → Action Workspace
unfolding find_or_raise
update workspace_id payload = do
  find_or_raise workspace_id
  raise_if (is_null payload.name || is_null payload.allow_anonymous_comments) integrity_error
  updated ← update_workspace workspace_id (with_payload payload)
  or_raise updated workspace_not_found

abbrev pub deleted : ℕ → Workspace → Workspace
deleted now w = record w { deleted_at = some now }

unfoldable pub soft_delete : ℕ → ℕ → Action Workspace
unfolding find_or_raise
soft_delete now workspace_id = do
  find_or_raise workspace_id
  deleted_row ← update_workspace workspace_id (deleted now)
  or_raise deleted_row workspace_not_found

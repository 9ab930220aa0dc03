-- ===== src/Workspace/Access.antt =====
-- The checks of apps/workspace/dependencies.py that stand before a route, with
-- WorkspaceMemberService.find_membership. That they set the context variable of the active workspace
-- is left out.
pub mod Gate
use fastapi_base.Prelude.{
  ℕ, Bool, not, Option, List, any, Text, gets, pure, raise_if, or_raise, ◌>>=◌, ◌>>◌,
}
use fastapi_base.Workspace.Model.{
  Workspace, WorkspaceMember, WorkspaceRole, same_role, Action, workspace_not_found, role_forbidden,
}
use fastapi_base.Workspace.Repository.{find_membership}
use fastapi_base.Workspace.Workspaces.{get_by_slug}

unfoldable pub get_workspace_by_slug : Text → Action Workspace
get_workspace_by_slug workspace_slug = get_by_slug workspace_slug

-- `_check` of the function of this name; a caller without a membership gets the error of a slug that
-- nothing has
unfoldable pub require_workspace_member : Text → ℕ → Action Workspace
require_workspace_member workspace_slug user_id = do
  workspace ← get_by_slug workspace_slug
  membership ← gets (find_membership workspace.id user_id)
  or_raise membership workspace_not_found
  pure workspace

abbrev pub is_allowed : List WorkspaceRole → WorkspaceMember → Bool
is_allowed allowed membership = any (same_role membership.role) allowed

unfoldable pub require_workspace_role : List WorkspaceRole → Text → ℕ → Action Workspace
require_workspace_role allowed workspace_slug user_id = do
  workspace ← get_by_slug workspace_slug
  found ← gets (find_membership workspace.id user_id)
  membership ← or_raise found workspace_not_found
  raise_if (not (is_allowed allowed membership)) role_forbidden
  pure workspace

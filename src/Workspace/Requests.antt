-- ===== src/Workspace/Requests.antt =====
-- The requests that write workspaces and members, and what every sequence of them keeps.
use fastapi_base.Prelude.{ℕ, Text, List, [], ◌∷◌, settled}
use fastapi_base.Workspace.Model.{WorkspaceRole, Db}
use fastapi_base.Workspace.Workspaces.{
  Fresh, CreateWorkspaceRequest, UpdateWorkspaceRequest, create, update, soft_delete,
}
use fastapi_base.Workspace.Members.{add_member, change_role, remove_member}

-- `str.lower` and `str.strip`
pub record Strings : Type 0 where
  pub lower : Text → Text
  pub strip : Text → Text

pub data Request : Type 0 where
  create_workspace : Fresh → ℕ → CreateWorkspaceRequest → Request
  edit_workspace : ℕ → UpdateWorkspaceRequest → Request
  delete_workspace : ℕ → ℕ → Request
  add_workspace_member : ℕ → ℕ → ℕ → ℕ → ℕ → WorkspaceRole → Request
  change_member_role : ℕ → ℕ → WorkspaceRole → Request
  remove_workspace_member : ℕ → ℕ → Request

unfoldable pub handle : Strings → Request → Db → Db
handle py (Request.create_workspace fresh user_id request) db =
    settled db (create py.lower py.strip fresh user_id request db)
handle py (Request.edit_workspace workspace_id request) db =
    settled db (update workspace_id request db)
handle py (Request.delete_workspace now workspace_id) db =
    settled db (soft_delete now workspace_id db)
handle py (Request.add_workspace_member new_id now workspace_id inviter user_id role) db =
    settled db (add_member new_id now workspace_id inviter user_id role db)
handle py (Request.change_member_role workspace_id user_id role) db =
    settled db (change_role workspace_id user_id role db)
handle py (Request.remove_workspace_member workspace_id user_id) db =
    settled db (remove_member workspace_id user_id db)

unfoldable pub serve : Strings → Db → List Request → Db
serve py db [] = db
serve py db (r ∷ rest) = serve py (handle py r db) rest

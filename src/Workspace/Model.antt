-- ===== src/Workspace/Model.antt =====
-- The rows of apps/workspace/models.py, the roles of enums.py, the limit of constants.py and the errors
-- that the two services raise.
use fastapi_base.Prelude.{ℕ, Bool, true, false, Option, List, Call, Text}

pub data WorkspaceRole : Type 0 where
  owner editor viewer commenter : WorkspaceRole

abbrev pub is_owner : WorkspaceRole → Bool
is_owner WorkspaceRole.owner = true
is_owner _ = false

-- `==` of two roles
abbrev pub same_role : WorkspaceRole → WorkspaceRole → Bool
same_role WorkspaceRole.owner WorkspaceRole.owner = true
same_role WorkspaceRole.editor WorkspaceRole.editor = true
same_role WorkspaceRole.viewer WorkspaceRole.viewer = true
same_role WorkspaceRole.commenter WorkspaceRole.commenter = true
same_role _ _ = false

pub record Workspace : Type 0 where
  pub id : ℕ
  pub slug : Text
  pub name : Text
  pub description : Option Text
  pub owner_user_id : ℕ
  pub allow_anonymous_comments : Bool
  pub deleted_at : Option ℕ
  pub created_at : ℕ

pub record WorkspaceMember : Type 0 where
  pub id : ℕ
  pub workspace_id : ℕ
  pub user_id : ℕ
  pub role : WorkspaceRole
  pub invited_by_user_id : Option ℕ
  pub created_at : ℕ

-- `users` holds the ids that a foreign key may name
pub record Db : Type 0 where
  pub workspaces : List Workspace
  pub members : List WorkspaceMember
  pub users : List ℕ

pub data Error : Type 0 where
  workspace_not_found slug_conflict slug_invalid slug_reserved : Error
  member_not_found member_already_exists member_limit_exceeded last_owner role_forbidden : Error
  -- a constraint of the table refused the row
  integrity_error : Error

abbrev pub Action : Type 0 → Type 0
Action = Call Db Error

abbrev pub workspace_max_members : ℕ
workspace_max_members = 1000

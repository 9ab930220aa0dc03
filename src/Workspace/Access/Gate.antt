-- ===== src/Workspace/Access/Gate.antt =====
-- Who passes the checks before a route.
use fastapi_base.Prelude.{
  ℕ, ◌≡◌, refl, sym, true, none, some, List, Text, ok, err, Bool-cases, Option-cases, inl, inr,
}
use fastapi_base.Workspace.Model.{
  Workspace, WorkspaceMember, WorkspaceRole, Db, workspace_not_found,
}
use fastapi_base.Workspace.Repository.{find_by_slug, find_membership}
use fastapi_base.Workspace.Workspaces.{get_by_slug}
use fastapi_base.Workspace.Access.{is_allowed, require_workspace_member, require_workspace_role}

-- A caller who passes the check of the role is a member, with one of the allowed roles, of the
-- workspace that has the slug and is not deleted; the route gets that workspace.
pub require_workspace_role-ok :
    (allowed : List WorkspaceRole) (slug : Text) (user_id : ℕ) (db : Db) {workspace : Workspace}
    → (require_workspace_role allowed slug user_id db).0 ≡ ok workspace
    → (find_by_slug slug db ≡ some workspace)
      × ((member : WorkspaceMember) × (find_membership workspace.id user_id db ≡ some member)
          × (is_allowed allowed member ≡ true))
unfolding require_workspace_role get_by_slug
require_workspace_role-ok allowed slug user_id db {workspace} h =
    elim (Option-cases (find_by_slug slug db)) [
      | inl e ↦ cc (rw e at h)
      | inr (w, e) ↦ elim (Option-cases (find_membership w.id user_id db)) [
        | inl f ↦ cc (rw (e, f) at h)
        | inr (member, f) ↦ elim (Bool-cases (is_allowed allowed member)) [
          | inr a ↦ cc (rw (e, f, a) at h)
          | inl a ↦
              let same : w ≡ workspace = cc (rw (e, f, a) at h) in rw (sym same) (e, (member, f, a))
        ]
      ]
    ]

-- A caller who is no member of the workspace with the slug, if there is one, gets from both checks the
-- error of a slug that no workspace has.
pub require_workspace_masked :
    (allowed : List WorkspaceRole) (slug : Text) (user_id : ℕ) (db : Db)
    → ((w : Workspace) → find_by_slug slug db ≡ some w → find_membership w.id user_id db ≡ none)
    → ((require_workspace_role allowed slug user_id db).0 ≡ err workspace_not_found)
      × ((require_workspace_member slug user_id db).0 ≡ err workspace_not_found)
unfolding require_workspace_role require_workspace_member get_by_slug
require_workspace_masked allowed slug user_id db outside =
    elim (Option-cases (find_by_slug slug db)) [
      | inl e ↦ rw e (refl, refl)
      | inr (w, e) ↦ rw (e, outside w e) (refl, refl)
    ]

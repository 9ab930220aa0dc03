-- ===== src/Tests/Members.antt =====
-- A workspace with two owners, and requests on it.
use fastapi_base.Prelude.{
  All, length, ◌≤◌, ℕ, ◌≡◌, refl, true, false, none, some, List, [], ◌∷◌, Text, arith, ok, err,
}
use fastapi_base.Workspace.Model.{
  Workspace, WorkspaceMember, WorkspaceRole, Db, workspace_not_found,
}
use fastapi_base.Workspace.Governance.{IsGoverned}
use fastapi_base.Workspace.Requests.{Strings, Request, serve}
use fastapi_base.Workspace.Slugs.{is_reserved, validate_slug, matches_slug_pattern, matches_rest}
use fastapi_base.Workspace.Repository.{
  find_by_slug, find_membership, count_owners, add_workspace, add_membership,
}
use fastapi_base.Workspace.Workspaces.{Fresh, CreateWorkspaceRequest, create, get_by_slug}
use fastapi_base.Workspace.Members.{check_removal, finish_removal}
use fastapi_base.Workspace.Access.{is_allowed, require_workspace_member, require_workspace_role}
use fastapi_base.Workspace.Access.Gate.{require_workspace_role-ok, require_workspace_masked}
use fastapi_base.Workspace.Creation.{IsSlugCharacter, create-ok}
use fastapi_base.Workspace.Interleaving.{owners_interleaved}
use fastapi_base.Workspace.Promises.{serve-IsGoverned}

abbrev a_workspace : Workspace
a_workspace = record {
  id = 7;
  slug = 111 ∷ 110 ∷ 101 ∷ [];
  name = 79 ∷ [];
  description = none;
  owner_user_id = 1;
  allow_anonymous_comments = false;
  deleted_at = none;
  created_at = 0;
}

abbrev an_owner : ℕ → ℕ → WorkspaceMember
an_owner member_id user_id = record {
  id = member_id;
  workspace_id = 7;
  user_id = user_id;
  role = WorkspaceRole.owner;
  invited_by_user_id = none;
  created_at = 0;
}

abbrev a_tenant : Db
a_tenant = record {
  workspaces = a_workspace ∷ [];
  members = an_owner 50 1 ∷ an_owner 51 2 ∷ [];
  users = 1 ∷ 2 ∷ 3 ∷ [];
}

abbrev as_is : Strings
as_is = record { lower = λ s. s; strip = λ s. s }

a_tenant-IsGoverned : IsGoverned a_tenant
a_tenant-IsGoverned = record {
  member_ids = λ i. ground arith;
  memberships = λ w u. ground arith;
  anchored = (refl, (refl, tt));
  limited = λ w. ground arith;
  owned = (omega arith, tt);
}

serve-IsGoverned_example : IsGoverned (
    serve as_is a_tenant (
      Request.remove_workspace_member 7 1
      ∷ Request.remove_workspace_member 7 2
      ∷ Request.add_workspace_member 52 9 7 2 3 WorkspaceRole.editor
      ∷ []))
serve-IsGoverned_example =
    serve-IsGoverned as_is a_tenant
      (Request.remove_workspace_member 7 1
        ∷ Request.remove_workspace_member 7 2
        ∷ Request.add_workspace_member 52 9 7 2 3 WorkspaceRole.editor
        ∷ [])
      a_tenant-IsGoverned

abbrev a_slug : Text
a_slug = 120 ∷ 45 ∷ 50 ∷ []

abbrev a_request : CreateWorkspaceRequest
a_request = record { slug = a_slug; name = 88 ∷ []; description = none }

abbrev some_ids : Fresh
some_ids = record { workspace_id = 8; member_id = 53; now = 5 }

create-ok_example :
    let db' = (create (λ s. s) (λ s. s) some_ids 3 a_request a_tenant).1 in
    ((length a_slug ≤ 80) × All IsSlugCharacter a_slug × (is_reserved a_slug ≡ false))
    × ((w : Workspace) × (find_by_slug a_slug db' ≡ some w)
        × (w.slug ≡ a_slug)
        × (w.owner_user_id ≡ 3)
        × (w.deleted_at ≡ none)
        × ((m : WorkspaceMember) × (find_membership w.id 3 db' ≡ some m)
            × (m.workspace_id ≡ w.id)
            × (m.user_id ≡ 3)
            × (m.role ≡ WorkspaceRole.owner)))
unfolding create validate_slug matches_slug_pattern matches_rest is_reserved find_by_slug
    add_workspace add_membership
create-ok_example = create-ok (λ s. s) (λ s. s) some_ids 3 a_request a_tenant refl

owners_interleaved_example :
    ((check_removal 7 1 a_tenant).0 ≡ ok (an_owner 50 1))
    × ((check_removal 7 2 a_tenant).0 ≡ ok (an_owner 51 2))
    × (count_owners 7 (finish_removal (an_owner 51 2) (finish_removal (an_owner 50 1) a_tenant).1).1
        ≡ 0)
unfolding find_membership count_owners
owners_interleaved_example =
    owners_interleaved 7 1 2 a_tenant (an_owner 50 1) (an_owner 51 2) refl refl refl refl refl refl

abbrev for_owners : List WorkspaceRole
for_owners = WorkspaceRole.owner ∷ []

require_workspace_role-ok_example :
    (find_by_slug a_workspace.slug a_tenant ≡ some a_workspace)
    × ((member : WorkspaceMember) × (find_membership 7 2 a_tenant ≡ some member)
        × (is_allowed for_owners member ≡ true))
unfolding require_workspace_role get_by_slug find_by_slug find_membership
require_workspace_role-ok_example =
    require_workspace_role-ok for_owners a_workspace.slug 2 a_tenant refl

outside :
    (w : Workspace)
    → find_by_slug a_workspace.slug a_tenant ≡ some w
    → find_membership w.id 3 a_tenant ≡ none
unfolding find_membership
outside w e = ground arith

require_workspace_masked_example :
    ((require_workspace_role for_owners a_workspace.slug 3 a_tenant).0 ≡ err workspace_not_found)
    × ((require_workspace_member a_workspace.slug 3 a_tenant).0 ≡ err workspace_not_found)
require_workspace_masked_example =
    require_workspace_masked for_owners a_workspace.slug 3 a_tenant outside

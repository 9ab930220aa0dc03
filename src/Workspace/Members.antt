-- ===== src/Workspace/Members.antt =====
-- WorkspaceMemberService (apps/workspace/services.py).
use fastapi_base.Prelude.{
  ℕ, Option, some, List, is_none, not, ◌&&◌, leb, gets, pure, raise_if, or_raise, ◌>>=◌, ◌>>◌,
  if◌then◌else◌,
}
use fastapi_base.Workspace.Model.{
  WorkspaceMember, WorkspaceRole, is_owner, same_role, Action, workspace_not_found,
  member_not_found, member_already_exists, member_limit_exceeded, last_owner, workspace_max_members,
}
use fastapi_base.Workspace.Repository.{
  find_workspace, find_membership, count_owners, count_members, add_membership, update_role,
  delete_membership, list_members_rows,
}

unfoldable pub ensure_workspace_exists : ℕ → Action Unit
ensure_workspace_exists workspace_id = do
  workspace ← gets (find_workspace workspace_id)
  raise_if (is_none workspace) workspace_not_found

unfoldable pub find_membership_or_raise : ℕ → ℕ → Action WorkspaceMember
find_membership_or_raise workspace_id user_id = do
  member ← gets (find_membership workspace_id user_id)
  or_raise member member_not_found

unfoldable pub list_members : ℕ → Option WorkspaceRole → ℕ → ℕ → Action (List WorkspaceMember × ℕ)
unfolding ensure_workspace_exists
list_members workspace_id role limit offset = do
  ensure_workspace_exists workspace_id
  gets (list_members_rows workspace_id role limit offset)

abbrev pub new_member : ℕ → ℕ → ℕ → ℕ → ℕ → WorkspaceRole → WorkspaceMember
new_member new_id now workspace_id invited_by_user_id user_id role = record {
  id = new_id;
  workspace_id = workspace_id;
  user_id = user_id;
  role = role;
  invited_by_user_id = some invited_by_user_id;
  created_at = now;
}

unfoldable pub add_member : ℕ → ℕ → ℕ → ℕ → ℕ → WorkspaceRole → Action WorkspaceMember
unfolding ensure_workspace_exists
add_member new_id now workspace_id invited_by_user_id user_id role = do
  ensure_workspace_exists workspace_id
  existing ← gets (find_membership workspace_id user_id)
  raise_if (not (is_none existing)) member_already_exists
  current_count ← gets (count_members workspace_id)
  raise_if (leb workspace_max_members current_count) member_limit_exceeded
  add_membership (new_member new_id now workspace_id invited_by_user_id user_id role)
  pure (new_member new_id now workspace_id invited_by_user_id user_id role)

-- `update` and its check of the result, the end of change_role
unfoldable pub write_role : WorkspaceMember → WorkspaceRole → Action WorkspaceMember
write_role member new_role = do
  updated ← update_role member.id new_role
  or_raise updated member_not_found

unfoldable pub demote_or_promote : ℕ → WorkspaceMember → WorkspaceRole → Action WorkspaceMember
unfolding write_role
demote_or_promote workspace_id member new_role = do
  owner_count ← gets (count_owners workspace_id)
  raise_if (is_owner member.role && not (is_owner new_role) && leb owner_count 1) last_owner
  write_role member new_role

unfoldable pub change_role : ℕ → ℕ → WorkspaceRole → Action WorkspaceMember
unfolding find_membership_or_raise demote_or_promote
change_role workspace_id user_id new_role = do
  member ← find_membership_or_raise workspace_id user_id
  if same_role member.role new_role
      then pure member
      else demote_or_promote workspace_id member new_role

-- the checks of remove_member, which only read
unfoldable pub check_removal : ℕ → ℕ → Action WorkspaceMember
unfolding find_membership_or_raise
check_removal workspace_id user_id = do
  member ← find_membership_or_raise workspace_id user_id
  owner_count ← gets (count_owners workspace_id)
  raise_if (is_owner member.role && leb owner_count 1) last_owner
  pure member

unfoldable pub finish_removal : WorkspaceMember → Action WorkspaceMember
finish_removal member = do deleted ← delete_membership member.id; or_raise deleted member_not_found

unfoldable pub remove_member : ℕ → ℕ → Action WorkspaceMember
unfolding check_removal finish_removal
remove_member workspace_id user_id = do
  member ← check_removal workspace_id user_id
  finish_removal member

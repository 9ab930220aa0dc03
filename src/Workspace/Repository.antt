-- ===== src/Workspace/Repository.antt =====
-- apps/workspace/repositories.py, and what `add`, `update` and `delete` of
-- apps/core/database/repository/_write.py do to the two tables, with the tables' constraints.
use fastapi_base.Prelude.{
  ℕ, ◌==◌, Bool, true, ◌&&◌, ◌||◌, not, Option, none, some, map_option, List, [], ◌∷◌, ◌++◌,
  is_none, leb, select, first, count, any, delete, update, take, drop, order_by, Text, same_text,
  ok, err, if◌then◌else◌,
}
use fastapi_base.Workspace.Model.{
  Workspace, WorkspaceMember, WorkspaceRole, same_role, is_owner, Db, Action, integrity_error,
}

abbrev pub has_workspace_id : ℕ → Workspace → Bool
has_workspace_id workspace_id w = w.id == workspace_id

abbrev pub is_live_workspace : ℕ → Workspace → Bool
is_live_workspace workspace_id w = w.id == workspace_id && is_none w.deleted_at

-- find_by_id with include_deleted=False
unfoldable pub find_workspace : ℕ → Db → Option Workspace
find_workspace workspace_id db = first (is_live_workspace workspace_id) db.workspaces

abbrev pub has_slug : Text → Workspace → Bool
has_slug slug w = same_text slug w.slug

-- find_by_slug with no excluded id and include_deleted=False
unfoldable pub find_by_slug : Text → Db → Option Workspace
find_by_slug slug db = first (λ w. has_slug slug w && is_none w.deleted_at) db.workspaces

-- INSERT INTO workspaces: the primary key, the unique slug and the owner's foreign key
unfoldable pub add_workspace : Workspace → Action Unit
add_workspace w db =
    if any (has_workspace_id w.id) db.workspaces
      || any (has_slug w.slug) db.workspaces
      || not (any (λ u. u == w.owner_user_id) db.users)
    then (err integrity_error, db)
    else (ok tt, record db { workspaces = db.workspaces ++ w ∷ [] })

-- UPDATE workspaces SET f WHERE id AND deleted_at IS NULL RETURNING *
unfoldable pub update_workspace : ℕ → (Workspace → Workspace) → Action (Option Workspace)
update_workspace workspace_id f db = (
  ok (map_option f (first (is_live_workspace workspace_id) db.workspaces)),
  record db { workspaces = update (is_live_workspace workspace_id) f db.workspaces },
)

abbrev pub has_member_id : ℕ → WorkspaceMember → Bool
has_member_id member_id m = m.id == member_id

abbrev pub is_in : ℕ → WorkspaceMember → Bool
is_in workspace_id m = m.workspace_id == workspace_id

abbrev pub is_membership : ℕ → ℕ → WorkspaceMember → Bool
is_membership workspace_id user_id m = m.workspace_id == workspace_id && m.user_id == user_id

abbrev pub is_owner_in : ℕ → WorkspaceMember → Bool
is_owner_in workspace_id m = m.workspace_id == workspace_id && is_owner m.role

unfoldable pub find_membership : ℕ → ℕ → Db → Option WorkspaceMember
find_membership workspace_id user_id db = first (is_membership workspace_id user_id) db.members

unfoldable pub count_owners : ℕ → Db → ℕ
count_owners workspace_id db = count (is_owner_in workspace_id) db.members

unfoldable pub count_members : ℕ → Db → ℕ
count_members workspace_id db = count (is_in workspace_id) db.members

-- INSERT INTO workspace_members: the primary key, uq_workspace_members_workspace_user and the
-- foreign keys
unfoldable pub add_membership : WorkspaceMember → Action Unit
add_membership m db =
    if any (has_member_id m.id) db.members
      || any (is_membership m.workspace_id m.user_id) db.members
      || not (any (has_workspace_id m.workspace_id) db.workspaces)
      || not (any (λ u. u == m.user_id) db.users)
    then (err integrity_error, db)
    else (ok tt, record db { members = db.members ++ m ∷ [] })

abbrev pub with_role : WorkspaceRole → WorkspaceMember → WorkspaceMember
with_role role m = record m { role = role }

-- UPDATE workspace_members SET role WHERE id RETURNING *
unfoldable pub update_role : ℕ → WorkspaceRole → Action (Option WorkspaceMember)
update_role member_id role db =
    let after = update (has_member_id member_id) (with_role role) db.members in
    (ok (first (has_member_id member_id) after), record db { members = after })

-- get_one_by_id and DELETE
unfoldable pub delete_membership : ℕ → Action (Option WorkspaceMember)
delete_membership member_id db = (
  ok (first (has_member_id member_id) db.members),
  record db { members = delete (has_member_id member_id) db.members },
)

-- the role filter of the two list queries
abbrev pub has_role : Option WorkspaceRole → WorkspaceMember → Bool
has_role none m = true
has_role (some role) m = same_role m.role role

-- the total of COUNT(*) OVER (), which stands in the rows themselves
abbrev pub window_total : List WorkspaceMember → ℕ → ℕ
window_total [] total = 0
window_total (m ∷ ms) total = total

-- WorkspaceMemberRepository.list_members
unfoldable pub list_members_rows : ℕ → Option WorkspaceRole → ℕ → ℕ → Db → List WorkspaceMember × ℕ
list_members_rows workspace_id role limit offset db =
    let chosen : WorkspaceMember → Bool = λ m. is_in workspace_id m && has_role role m in
    let rows =
      take limit (
        drop offset (order_by (λ m n. leb m.created_at n.created_at) (select chosen db.members))) in
    (rows, window_total rows (count chosen db.members))

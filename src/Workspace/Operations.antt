-- ===== src/Workspace/Operations.antt =====
-- Each operation of the two services keeps the tables governed.
use fastapi_base.Prelude.{
  ℕ, ◌≡◌, refl, ◌&&◌, true, false, not, [], ◌∷◌, ◌++◌, arith, count, first, any, ◌==◌, Bool-cases,
  Option-cases, inl, inr, leb, is_none, update as update_rows, or_raise-state, bind-ok, ok,
}
use fastapi_base.Workspace.Model.{
  WorkspaceMember, WorkspaceRole, is_owner, same_role, Db, member_not_found,
}
use fastapi_base.Workspace.Repository.{
  has_workspace_id, has_member_id, is_in, is_membership, is_owner_in, with_role, find_membership,
  find_workspace, count_owners, count_members, add_membership, update_role, delete_membership,
}
use fastapi_base.Workspace.Members.{new_member, add_member, change_role, remove_member}
use fastapi_base.Workspace.Governance.{
  IsGoverned, removed-IsGoverned, role_changed-IsGoverned, added-IsGoverned,
}

pub remove_member-IsGoverned :
    (workspace_id user_id : ℕ) (db : Db) {r : WorkspaceMember}
    → IsGoverned db
    → (remove_member workspace_id user_id db).0 ≡ ok r
    → IsGoverned (remove_member workspace_id user_id db).1
unfolding remove_member find_membership count_owners delete_membership
remove_member-IsGoverned workspace_id user_id db governed h =
    elim (Option-cases (first (is_membership workspace_id user_id) db.members)) [
      | inl e ↦ cc (rw e at h)
      | inr (m, e) ↦
          elim (Bool-cases
            (is_owner m.role && leb (count (is_owner_in workspace_id) db.members) 1)) [
              | inl g ↦ cc (rw (e, g) at h)
              | inr g ↦
                  rw (e, g)
                    (rw (or_raise-state (first (has_member_id m.id) db.members) member_not_found)
                      (removed-IsGoverned workspace_id user_id db m e governed g))
            ]
    ]

pub change_role-IsGoverned :
    (workspace_id user_id : ℕ) (role : WorkspaceRole) (db : Db) {r : WorkspaceMember}
    → IsGoverned db
    → (change_role workspace_id user_id role db).0 ≡ ok r
    → IsGoverned (change_role workspace_id user_id role db).1
unfolding change_role find_membership count_owners update_role
change_role-IsGoverned workspace_id user_id role db governed h =
    elim (Option-cases (first (is_membership workspace_id user_id) db.members)) [
      | inl e ↦ cc (rw e at h)
      | inr (m, e) ↦ elim (Bool-cases (same_role m.role role)) [
        | inl s ↦ rw (e, s) governed
        | inr s ↦
            elim (Bool-cases (
              is_owner m.role
              && not (is_owner role)
              && leb (count (is_owner_in workspace_id) db.members) 1)) [
                | inl g ↦ cc (rw (e, s, g) at h)
                | inr g ↦
                    rw (e, s, g)
                      (rw
                        (or_raise-state
                          (first (has_member_id m.id)
                            (update_rows (has_member_id m.id) (with_role role) db.members))
                          member_not_found)
                        (role_changed-IsGoverned workspace_id user_id db m e governed role g))
              ]
      ]
    ]

-- A membership row that was inserted met the constraints.
pub add_membership-ok :
    (m : WorkspaceMember) (db : Db)
    → (add_membership m db).0 ≡ ok tt
    → (any (has_member_id m.id) db.members ≡ false)
      × (any (is_membership m.workspace_id m.user_id) db.members ≡ false)
      × (any (has_workspace_id m.workspace_id) db.workspaces ≡ true)
      × ((add_membership m db).1 ≡ record db { members = db.members ++ m ∷ [] })
unfolding add_membership
add_membership-ok m db h = elim (Bool-cases (any (has_member_id m.id) db.members)) [
  | inl a ↦ cc (rw a at h)
  | inr a ↦ elim (Bool-cases (any (is_membership m.workspace_id m.user_id) db.members)) [
    | inl b ↦ cc (rw (a, b) at h)
    | inr b ↦ elim (Bool-cases (any (has_workspace_id m.workspace_id) db.workspaces)) [
      | inr c ↦ cc (rw (a, b, c) at h)
      | inl c ↦ elim (Bool-cases (any (λ u. u == m.user_id) db.users)) [
        | inr d ↦ cc (rw (a, b, c, d) at h)
        | inl d ↦ (a, b, c, rw (a, b, c, d) refl)
      ]
    ]
  ]
]

pub add_member-IsGoverned :
    (new_id now workspace_id inviter user_id : ℕ) (role : WorkspaceRole) (db : Db)
    {r : WorkspaceMember}
    → IsGoverned db
    → (add_member new_id now workspace_id inviter user_id role db).0 ≡ ok r
    → IsGoverned (add_member new_id now workspace_id inviter user_id role db).1
unfolding add_member count_members
add_member-IsGoverned new_id now workspace_id inviter user_id role db governed h =
    let m = new_member new_id now workspace_id inviter user_id role in
    elim (Bool-cases (is_none (find_workspace workspace_id db))) [
      | inl e ↦ cc (rw e at h)
      | inr e ↦ elim (Bool-cases (is_none (find_membership workspace_id user_id db))) [
        | inr f ↦ cc (rw (e, f) at h)
        | inl f ↦ elim (Bool-cases (leb 1000 (count (is_in workspace_id) db.members))) [
          | inl g ↦ cc (rw (e, f, g) at h)
          | inr g ↦
              let (u, inserted) = bind-ok (add_membership m) _ db (rw (e, f, g) at h) in
              let (a, b, c, after) = add_membership-ok m db inserted in
              rw (e, f, g, inserted, after)
                (added-IsGoverned db m a b c (ground (arith, g)) governed)
        ]
      ]
    ]

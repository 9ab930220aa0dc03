-- ===== src/Workspace/Governance.antt =====
-- What the two services promise of the tables, and that each statement on memberships keeps it.
use fastapi_base.Prelude.{
  ℕ, ◌+◌, ◌≤◌, ◌≡◌, refl, ◌&&◌, Bool, true, false, not, some, [], ◌∷◌, ◌++◌, arith, count, update,
  first, any, delete, All, All-imp, All-delete, All-update, All-append, ◌==◌, ==_refl, Bool-cases,
  inl, inr, leb, first_satisfies, count-delete, count-append, count-zero_of_not_any,
}
use fastapi_base.Workspace.Model.{
  WorkspaceMember, WorkspaceRole, is_owner, Db, workspace_max_members,
}
use fastapi_base.Workspace.Repository.{
  has_workspace_id, has_member_id, is_in, is_membership, is_owner_in, with_role,
}
use fastapi_base.Workspace.Counting.{
  count-update, count-update_grows, count-update_same, count_and, count_other,
}

pub record IsGoverned (db : Db) : Type 0 where
  -- a member's id names one row
  pub member_ids : (i : ℕ) → count (has_member_id i) db.members ≤ 1
  -- a user has one role in a workspace
  pub memberships : (w u : ℕ) → count (is_membership w u) db.members ≤ 1
  -- a membership is of a workspace that exists
  pub anchored : All (λ m. any (has_workspace_id m.workspace_id) db.workspaces ≡ true) db.members
  pub limited : (w : ℕ) → count (is_in w) db.members ≤ workspace_max_members
  -- every workspace has an owner
  pub owned : All (λ w. 1 ≤ count (is_owner_in w.id) db.members) db.workspaces

module _ (workspace_id user_id : ℕ) (db : Db) (m : WorkspaceMember)
    (found : first (is_membership workspace_id user_id) db.members ≡ some m)
    (governed : IsGoverned db) where
  in_workspace : (m.workspace_id == workspace_id) ≡ true
  in_workspace =
      ground (arith, first_satisfies (is_membership workspace_id user_id) db.members found)

  -- How many owners of a workspace the row `m` is.
  owners_lost :
      (w : ℕ)
      → (is_owner m.role && leb (count (is_owner_in workspace_id) db.members) 1) ≡ false
      → 1 ≤ count (is_owner_in w) db.members
      → 1 + count (λ x. is_owner_in w x && has_member_id m.id x) db.members
        ≤ count (is_owner_in w) db.members
  owners_lost w guard one = elim (Bool-cases (is_owner_in w m)) [
    | inl e ↦ ground (
      arith,
      in_workspace,
      e,
      guard,
      count_and (is_owner_in w) (has_member_id m.id) db.members,
      governed.member_ids m.id,
    )
    | inr e ↦ omega (
      arith,
      count_other (is_membership workspace_id user_id) (is_owner_in w) (has_member_id m.id)
          db.members m found (==_refl m.id) e (governed.member_ids m.id),
    )
  ]

  pub removed-IsGoverned :
      (is_owner m.role && leb (count (is_owner_in workspace_id) db.members) 1) ≡ false
      → IsGoverned (record db { members = delete (has_member_id m.id) db.members })
  removed-IsGoverned guard =
      let kept = λ (q : WorkspaceMember → Bool). count-delete q (has_member_id m.id) db.members in
      record {
        member_ids = λ i. omega (arith, kept (has_member_id i), governed.member_ids i);
        memberships = λ w u. omega (arith, kept (is_membership w u), governed.memberships w u);
        anchored = All-delete _ (has_member_id m.id) db.members governed.anchored;
        limited = λ w. omega (arith, kept (is_in w), governed.limited w);
        owned =
            All-imp _ _ db.workspaces
              (λ w one. omega (arith, kept (is_owner_in w.id), owners_lost w.id guard one))
              governed.owned;
      }

  pub role_changed-IsGoverned :
      (role : WorkspaceRole)
      → (is_owner m.role
          && not (is_owner role)
          && leb (count (is_owner_in workspace_id) db.members) 1)
        ≡ false
      → IsGoverned (record db { members = update (has_member_id m.id) (with_role role) db.members })
  role_changed-IsGoverned role guard =
      let same =
        λ (q : WorkspaceMember → Bool) (k : (x : WorkspaceMember) → q (with_role role x) ≡ q x).
          count-update_same q (has_member_id m.id) (with_role role) db.members k in
      record {
        member_ids = λ i. omega (arith, same (has_member_id i) (λ x. refl), governed.member_ids i);
        memberships =
            λ w u. omega (arith, same (is_membership w u) (λ x. refl), governed.memberships w u);
        anchored =
            All-update _ (has_member_id m.id) (with_role role) db.members (λ x h. h)
              governed.anchored;
        limited = λ w. omega (arith, same (is_in w) (λ x. refl), governed.limited w);
        owned =
            All-imp _ _ db.workspaces
              (λ w one. elim (Bool-cases (is_owner role)) [
                | inl e ↦
                    let more =
                      count-update_grows (is_owner_in w.id) (has_member_id m.id) (with_role role)
                        db.members (λ x h. ground (arith, e)) in
                    omega (arith, more)
                | inr e ↦
                    let few =
                      count-update (is_owner_in w.id) (has_member_id m.id) (with_role role)
                        db.members in
                    omega (arith, few, owners_lost w.id (ground (arith, e, guard)) one)
              ])
              governed.owned;
      }

-- A new row in workspace_members.
pub added-IsGoverned :
    (db : Db) (m : WorkspaceMember)
    → any (has_member_id m.id) db.members ≡ false
    → any (is_membership m.workspace_id m.user_id) db.members ≡ false
    → any (has_workspace_id m.workspace_id) db.workspaces ≡ true
    → count (is_in m.workspace_id) db.members ≤ 999
    → IsGoverned db
    → IsGoverned (record db { members = db.members ++ m ∷ [] })
added-IsGoverned db m new_id new_pair exists room governed =
    let more = λ (q : WorkspaceMember → Bool). count-append q db.members (m ∷ []) in
    let none_id = count-zero_of_not_any (has_member_id m.id) db.members new_id in
    let none_pair =
      count-zero_of_not_any (is_membership m.workspace_id m.user_id) db.members new_pair in
    record {
      member_ids = λ i. ground (arith, more (has_member_id i), none_id, governed.member_ids i);
      memberships =
          λ w u. ground (arith, more (is_membership w u), none_pair, governed.memberships w u);
      anchored = All-append _ db.members (m ∷ []) governed.anchored (exists, tt);
      limited = λ w. ground (arith, more (is_in w), governed.limited w);
      owned =
          All-imp _ _ db.workspaces (λ w one. omega (arith, more (is_owner_in w.id)))
            governed.owned;
    }

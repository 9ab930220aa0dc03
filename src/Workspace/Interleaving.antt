-- ===== src/Workspace/Interleaving.antt =====
-- Two removals whose checks both run before either deletes, as PostgreSQL's READ COMMITTED lets two
-- requests do that take no lock.
use fastapi_base.Prelude.{
  ℕ, ◌≡◌, refl, ◌&&◌, Bool, true, false, some, List, [], ◌∷◌, arith, count, first, delete,
  count-delete, ok, ◌==◌, ==_refl, first_satisfies, or_raise-state,
}
use fastapi_base.Workspace.Model.{WorkspaceMember, Db, is_owner, member_not_found}
use fastapi_base.Workspace.Repository.{
  is_membership, is_owner_in, has_member_id, find_membership, count_owners, delete_membership,
}
use fastapi_base.Workspace.Members.{check_removal, finish_removal}
use fastapi_base.Workspace.Counting.{count-pos_of_first}

finish_removal-database :
    (m : WorkspaceMember) (db : Db)
    → (finish_removal m db).1 ≡ record db { members = delete (has_member_id m.id) db.members }
unfolding finish_removal delete_membership
finish_removal-database m db =
    or_raise-state (first (has_member_id m.id) db.members) member_not_found
      (record db { members = delete (has_member_id m.id) db.members })

-- No row has two ids.
count_of_two_ids :
    (q : WorkspaceMember → Bool) (i j : ℕ) (ms : List WorkspaceMember)
    → (i == j) ≡ false
    → count (λ x. (q x && has_member_id j x) && has_member_id i x) ms ≡ 0
count_of_two_ids q i j [] distinct = refl
count_of_two_ids q i j (m ∷ ms) distinct = ground (arith, count_of_two_ids q i j ms distinct)

-- Where a workspace has exactly two owners, both pass the check that an owner is left, and after both
-- deletions it has none.
pub owners_interleaved :
    (workspace_id user user' : ℕ) (db : Db) (m m' : WorkspaceMember)
    → find_membership workspace_id user db ≡ some m
    → find_membership workspace_id user' db ≡ some m'
    → is_owner m.role ≡ true
    → is_owner m'.role ≡ true
    → (m.id == m'.id) ≡ false
    → count_owners workspace_id db ≡ 2
    → ((check_removal workspace_id user db).0 ≡ ok m)
      × ((check_removal workspace_id user' db).0 ≡ ok m')
      × (count_owners workspace_id (finish_removal m' (finish_removal m db).1).1 ≡ 0)
unfolding check_removal find_membership count_owners
owners_interleaved workspace_id user user' db m m' found found' owner owner' distinct two =
    let q = is_owner_in workspace_id in
    let p = has_member_id m.id in
    let p' = has_member_id m'.id in
    let ms = db.members in
    let here : is_owner_in workspace_id m ≡ true =
      ground (arith, owner, first_satisfies (is_membership workspace_id user) ms found) in
    let here' : is_owner_in workspace_id m' ≡ true =
      ground (arith, owner', first_satisfies (is_membership workspace_id user') ms found') in
    let one =
      count-pos_of_first (is_membership workspace_id user) (λ x. q x && p x) ms m found
        (ground (arith, here, ==_refl m.id)) in
    let one' =
      count-pos_of_first (is_membership workspace_id user') (λ x. q x && p' x) ms m' found'
        (ground (arith, here', ==_refl m'.id)) in
    let gone = count-delete q p ms in
    let gone' = count-delete q p' (delete p ms) in
    let still = count-delete (λ x. q x && p' x) p ms in
    let apart = count_of_two_ids q m.id m'.id ms distinct in
    (
      rw (found, two, owner) refl,
      rw (found', two, owner') refl,
      rw
          (
            finish_removal-database m db,
            finish_removal-database m' (record db { members = delete p ms }),
          )
          (omega (arith, one, one', gone, gone', still, apart, two)),
    )

-- ===== src/Workspace/Listing.antt =====
-- The total that comes with a page of members.
use fastapi_base.Prelude.{
  ℕ, zero, suc, ◌≤◌, ◌≡◌, refl, ◌&&◌, Bool, Option, List, [], ◌∷◌, arith, drop, take, length, count,
  select, leb, order_by, length-order_by, count-eq-length-select,
}
use fastapi_base.Workspace.Model.{WorkspaceMember, WorkspaceRole, Db}
use fastapi_base.Workspace.Repository.{is_in, has_role, list_members_rows}

drop_all : {A : Type 0} (n : ℕ) (xs : List A) → length xs ≤ n → drop n xs ≡ []
drop_all zero [] h = refl
drop_all zero (x ∷ xs) h = ground arith
drop_all (suc n) [] h = refl
drop_all (suc n) (x ∷ xs) h = drop_all n xs (omega (arith, h))

take_none : {A : Type 0} (n : ℕ) → take {A = A} n [] ≡ []
take_none zero = refl
take_none (suc n) = refl

-- A page that starts behind the last member reports a total of 0, however many members there are.
list_members_past_end :
    (workspace_id limit offset : ℕ) (role : Option WorkspaceRole) (db : Db)
    → count (λ m. is_in workspace_id m && has_role role m) db.members ≤ offset
    → list_members_rows workspace_id role limit offset db ≡ ([], 0)
unfolding list_members_rows
list_members_past_end workspace_id limit offset role db h =
    let chosen : WorkspaceMember → Bool = λ m. is_in workspace_id m && has_role role m in
    let le : WorkspaceMember → WorkspaceMember → Bool = λ m n. leb m.created_at n.created_at in
    let rows = order_by le (select chosen db.members) in
    let few : length rows ≤ offset = omega (
      arith,
      h,
      length-order_by le (select chosen db.members),
      count-eq-length-select chosen db.members,
    ) in
    rw (drop_all offset rows few, take_none {A = WorkspaceMember} limit) refl

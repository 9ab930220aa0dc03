-- ===== src/Workspace/Creation.antt =====
-- What creating a workspace gives its creator, and which slugs it may have.
use fastapi_base.Prelude.{
  ◌⊎◌, leb, none, All-imp, ℕ, ◌+◌, ◌≤◌, ◌≡◌, refl, ◌&&◌, Bool, true, false, some, List, [], ◌∷◌,
  ◌++◌, arith, any, first, All, Text, same_text, length, Bool-cases, inl, inr, is_none, lift,
  bind-ok, ok, ==_refl,
}
use fastapi_base.Workspace.Model.{Workspace, WorkspaceMember, WorkspaceRole, Db}
use fastapi_base.Workspace.Slugs.{
  is_slug_inner, matches_rest, matches_slug_pattern, validate_slug, is_reserved,
}
use fastapi_base.Workspace.Repository.{
  find_by_slug, find_membership, add_workspace, add_membership, has_slug, is_membership,
}
use fastapi_base.Workspace.Workspaces.{
  Fresh, CreateWorkspaceRequest, create, new_workspace, bootstrap_membership,
}
use fastapi_base.Workspace.Operations.{add_membership-ok}
use fastapi_base.Workspace.Promises.{add_workspace-ok}

matches_rest-length :
    (n : ℕ) (s : Text)
    → matches_rest n s ≡ true
    → (n + length s ≤ 79) × All (λ c. is_slug_inner c ≡ true) s
unfolding matches_rest
matches_rest-length n [] h = cc
matches_rest-length n (c ∷ []) h = (ground arith, (ground arith, tt))
matches_rest-length n (c ∷ d ∷ s) h =
    let (short, inner) = matches_rest-length (n + 1) (d ∷ s) (ground arith) in
    (omega (arith, short), (ground arith, inner))

matches_slug_pattern-length :
    (slug : Text)
    → matches_slug_pattern slug ≡ true
    → (length slug ≤ 80) × All (λ c. is_slug_inner c ≡ true) slug
unfolding matches_slug_pattern
matches_slug_pattern-length [] h = cc
matches_slug_pattern-length (c ∷ []) h = (omega arith, (ground arith, tt))
matches_slug_pattern-length (c ∷ d ∷ s) h =
    let (short, inner) = matches_rest-length 0 (d ∷ s) (ground arith) in
    (omega (arith, short), (ground arith, inner))

-- A slug that is accepted has at most 80 characters, all of them lower-case letters, digits or
-- hyphens, and is not a reserved word.
validate_slug-ok :
    (slug : Text)
    → validate_slug slug ≡ ok tt
    → (length slug ≤ 80) × All (λ c. is_slug_inner c ≡ true) slug × (is_reserved slug ≡ false)
unfolding validate_slug
validate_slug-ok slug h = elim (Bool-cases (matches_slug_pattern slug)) [
  | inr e ↦ cc (rw e at h)
  | inl e ↦ elim (Bool-cases (is_reserved slug)) [
    | inl r ↦ cc (rw (e, r) at h)
    | inr r ↦ let (short, inner) = matches_slug_pattern-length slug e in (short, inner, r)
  ]
]

first-new :
    {A : Type 0} (p : A → Bool) (xs : List A) (x : A)
    → any p xs ≡ false
    → p x ≡ true
    → first p (xs ++ x ∷ []) ≡ some x
first-new p [] x h e = rw e refl
first-new p (y ∷ ys) x h e = elim (Bool-cases (p y)) [
  | inl a ↦ ground (arith, a)
  | inr a ↦ rw a (first-new p ys x (ground (arith, a)) e)
]

any-false_of_weaker :
    {A : Type 0} (p q : A → Bool) (xs : List A)
    → any p xs ≡ false
    → any (λ x. p x && q x) xs ≡ false
any-false_of_weaker p q [] h = refl
any-false_of_weaker p q (x ∷ xs) h = ground (arith, any-false_of_weaker p q xs)

same_text_refl : (s : Text) → same_text s s ≡ true
same_text_refl [] = refl
same_text_refl (c ∷ s) = ground (arith, ==_refl c, same_text_refl s)

-- `a` to `z`, `0` to `9`, or a hyphen
abbrev pub IsSlugCharacter : ℕ → Type 0
IsSlugCharacter c = ((97 ≤ c) × (c ≤ 122)) ⊎ ((48 ≤ c) × (c ≤ 57)) ⊎ (c ≡ 45)

is_slug_inner-IsSlugCharacter : (c : ℕ) → is_slug_inner c ≡ true → IsSlugCharacter c
is_slug_inner-IsSlugCharacter c h = elim (Bool-cases (leb 97 c && leb c 122)) [
  | inl e ↦ inl (ground (arith, e), ground (arith, e))
  | inr e ↦ elim (Bool-cases (leb 48 c && leb c 57)) [
    | inl f ↦ inr (inl (ground (arith, f), ground (arith, f)))
    | inr f ↦ inr (inr (ground (arith, e, f, h)))
  ]
]

-- A workspace that was created is found under its slug, with the creator as its owner and not deleted;
-- the creator has a membership of it with the role of an owner; and the slug has at most 80 characters,
-- each `a` to `z`, `0` to `9` or a hyphen, and is not a reserved word.
pub create-ok :
    (lower strip : Text → Text) (fresh : Fresh) (user_id : ℕ) (request : CreateWorkspaceRequest)
    (db : Db) {r : Workspace}
    → (create lower strip fresh user_id request db).0 ≡ ok r
    → let slug = strip (lower request.slug) in
      let db' = (create lower strip fresh user_id request db).1 in
      ((length slug ≤ 80) × All IsSlugCharacter slug × (is_reserved slug ≡ false))
      × ((w : Workspace) × (find_by_slug slug db' ≡ some w)
          × (w.slug ≡ slug)
          × (w.owner_user_id ≡ user_id)
          × (w.deleted_at ≡ none)
          × ((m : WorkspaceMember) × (find_membership w.id user_id db' ≡ some m)
              × (m.workspace_id ≡ w.id)
              × (m.user_id ≡ user_id)
              × (m.role ≡ WorkspaceRole.owner)))
unfolding create find_by_slug find_membership
create-ok lower strip fresh user_id request db h =
    let slug = strip (lower request.slug) in
    let w = new_workspace fresh user_id slug request in
    let m = bootstrap_membership fresh user_id in
    let (u0, valid) = bind-ok (lift (validate_slug slug)) _ db h in
    elim (Bool-cases (is_none (find_by_slug slug db))) [
      | inr f ↦ cc (rw (valid, f) at h)
      | inl f ↦
          let (u1, added) = bind-ok (add_workspace w) _ db (rw (valid, f) at h) in
          let (new_w, new_slug, after_w) = add_workspace-ok w db added in
          let db1 = record db { workspaces = db.workspaces ++ w ∷ [] } in
          let (u2, seated) =
            bind-ok (add_membership m) _ db1 (rw (valid, f, added, after_w) at h) in
          let (new_id, new_pair, known, after_m) = add_membership-ok m db1 seated in
          let (short, inner, free) = validate_slug-ok slug valid in
          let characters =
            All-imp (λ c. is_slug_inner c ≡ true) IsSlugCharacter slug is_slug_inner-IsSlugCharacter
              inner in
          rw (valid, f, added, after_w, seated, after_m)
            (
              (short, characters, free),
              (
                w,
                first-new _ db.workspaces w
                    (any-false_of_weaker (has_slug slug) (λ x. is_none x.deleted_at) db.workspaces
                      new_slug)
                    (ground (arith, same_text_refl slug)),
                refl,
                refl,
                refl,
                (
                  m,
                  first-new (is_membership fresh.workspace_id user_id) db.members m new_pair
                      (ground (arith, ==_refl fresh.workspace_id, ==_refl user_id)),
                  refl,
                  refl,
                  refl,
                ),
              ),
            )
    ]

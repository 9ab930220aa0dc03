-- ===== src/Workspace/Promises.antt =====
-- What every sequence of workspace requests keeps: an owner in each workspace, one role for a user
-- in a workspace, and the limit on members.
use fastapi_base.Prelude.{
  ℕ, ◌≡◌, refl, ◌∙◌, ◌||◌, Bool, true, false, List, [], ◌∷◌, ◌++◌, arith, count,
  update as update_rows, first, any, All-imp, All-update, All-append, ◌==◌, Bool-cases,
  Option-cases, inl, inr, is_none, count-append, count-zero_of_not_any, any-append, lift, or_raise,
  ◌>>=◌, or_raise-state, bind-ok, settled_ok, ok, map_option,
}
use fastapi_base.Workspace.Model.{Workspace, WorkspaceMember, is_owner, Db, workspace_not_found}
use fastapi_base.Workspace.Repository.{
  has_workspace_id, has_slug, has_member_id, is_in, is_membership, is_owner_in, find_workspace,
  add_membership, add_workspace, update_workspace, is_live_workspace, find_by_slug,
}
use fastapi_base.Workspace.Slugs.{validate_slug}
use fastapi_base.Workspace.Workspaces.{
  Fresh, CreateWorkspaceRequest, UpdateWorkspaceRequest, create, update, soft_delete, with_payload,
  deleted, is_null, new_workspace, bootstrap_membership,
}
use fastapi_base.Workspace.Members.{add_member, change_role, remove_member}
use fastapi_base.Workspace.Counting.{count-zero_of_All}
use fastapi_base.Workspace.Governance.{IsGoverned}
use fastapi_base.Workspace.Operations.{
  remove_member-IsGoverned, change_role-IsGoverned, add_member-IsGoverned, add_membership-ok,
}
use fastapi_base.Workspace.Requests.{Strings, Request, handle, serve}

any_update_same :
    (q p : Workspace → Bool) (f : Workspace → Workspace) (ws : List Workspace)
    → ((w : Workspace) → q (f w) ≡ q w)
    → any q (update_rows p f ws) ≡ any q ws
any_update_same q p f [] k = refl
any_update_same q p f (w ∷ ws) k = ground (arith, any_update_same q p f ws k, k w)

-- An update of a workspace's columns other than its id.
updated-IsGoverned :
    (workspace_id : ℕ) (f : Workspace → Workspace) (db : Db)
    → ((w : Workspace) → (f w).id ≡ w.id)
    → IsGoverned db
    → IsGoverned (update_workspace workspace_id f db).1
unfolding update_workspace
updated-IsGoverned workspace_id f db same governed = record {
  member_ids = governed.member_ids;
  memberships = governed.memberships;
  anchored =
      All-imp _ _ db.members
        (λ m h.
          any_update_same (has_workspace_id m.workspace_id) (is_live_workspace workspace_id) f
            db.workspaces (λ w. rw (same w) refl)
          ∙ h)
        governed.anchored;
  limited = governed.limited;
  owned =
      All-update _ (is_live_workspace workspace_id) f db.workspaces (λ w one. rw (same w) one)
        governed.owned;
}

written-IsGoverned :
    (workspace_id : ℕ) (f : Workspace → Workspace) (db : Db)
    → ((w : Workspace) → (f w).id ≡ w.id)
    → IsGoverned db
    → IsGoverned ((update_workspace workspace_id f >>= λ o. or_raise o workspace_not_found) db).1
unfolding update_workspace
written-IsGoverned workspace_id f db same governed =
    rw
      (or_raise-state (map_option f (first (is_live_workspace workspace_id) db.workspaces))
        workspace_not_found (update_workspace workspace_id f db).1)
      (updated-IsGoverned workspace_id f db same governed)

update-IsGoverned :
    (workspace_id : ℕ) (request : UpdateWorkspaceRequest) (db : Db) {r : Workspace}
    → IsGoverned db
    → (update workspace_id request db).0 ≡ ok r
    → IsGoverned (update workspace_id request db).1
unfolding update
update-IsGoverned workspace_id request db governed h =
    elim (Option-cases (find_workspace workspace_id db)) [
      | inl e ↦ cc (rw e at h)
      | inr (w, e) ↦
          elim (Bool-cases (is_null request.name || is_null request.allow_anonymous_comments)) [
            | inl n ↦ cc (rw (e, n) at h)
            | inr n ↦
                rw (e, n)
                  (written-IsGoverned workspace_id (with_payload request) db (λ w'. refl) governed)
          ]
    ]

soft_delete-IsGoverned :
    (now workspace_id : ℕ) (db : Db) {r : Workspace}
    → IsGoverned db
    → (soft_delete now workspace_id db).0 ≡ ok r
    → IsGoverned (soft_delete now workspace_id db).1
unfolding soft_delete
soft_delete-IsGoverned now workspace_id db governed h =
    elim (Option-cases (find_workspace workspace_id db)) [
      | inl e ↦ cc (rw e at h)
      | inr (w, e) ↦ rw e (written-IsGoverned workspace_id (deleted now) db (λ w'. refl) governed)
    ]

pub add_workspace-ok :
    (w : Workspace) (db : Db)
    → (add_workspace w db).0 ≡ ok tt
    → (any (has_workspace_id w.id) db.workspaces ≡ false)
      × (any (has_slug w.slug) db.workspaces ≡ false)
      × ((add_workspace w db).1 ≡ record db { workspaces = db.workspaces ++ w ∷ [] })
unfolding add_workspace
add_workspace-ok w db h = elim (Bool-cases (any (has_workspace_id w.id) db.workspaces)) [
  | inl a ↦ cc (rw a at h)
  | inr a ↦ elim (Bool-cases (any (has_slug w.slug) db.workspaces)) [
    | inl b ↦ cc (rw (a, b) at h)
    | inr b ↦ elim (Bool-cases (any (λ u. u == w.owner_user_id) db.users)) [
      | inr c ↦ cc (rw (a, b, c) at h)
      | inl c ↦ (a, b, rw (a, b, c) refl)
    ]
  ]
]

-- No membership names a workspace that does not exist.
nobody_in :
    (w : ℕ) (db : Db)
    → any (has_workspace_id w) db.workspaces ≡ false
    → IsGoverned db
    → count (is_in w) db.members ≡ 0
nobody_in w db new governed = count-zero_of_All (is_in w) db.members (
    All-imp _ _ db.members
      (λ m h. elim (Bool-cases (is_in w m)) [
        | inr e ↦ e
        | inl e ↦ let same : m.workspace_id ≡ w = ground (arith, e) in cc (rw same at h)
      ])
      governed.anchored)

-- A workspace together with its first owner.
created-IsGoverned :
    (db : Db) (w : Workspace) (m : WorkspaceMember)
    → m.workspace_id ≡ w.id
    → is_owner m.role ≡ true
    → any (has_workspace_id w.id) db.workspaces ≡ false
    → any (has_member_id m.id) db.members ≡ false
    → any (is_membership m.workspace_id m.user_id) db.members ≡ false
    → IsGoverned db
    → IsGoverned
        (record db { workspaces = db.workspaces ++ w ∷ []; members = db.members ++ m ∷ [] })
created-IsGoverned db w m here owner_role new_w new_id new_pair governed =
    let more = λ (q : WorkspaceMember → Bool). count-append q db.members (m ∷ []) in
    let none_id = count-zero_of_not_any (has_member_id m.id) db.members new_id in
    let none_pair =
      count-zero_of_not_any (is_membership m.workspace_id m.user_id) db.members new_pair in
    let empty = nobody_in w.id db new_w governed in
    let wider = λ (i : ℕ). any-append (has_workspace_id i) db.workspaces (w ∷ []) in
    record {
      member_ids = λ i. ground (arith, more (has_member_id i), none_id, governed.member_ids i);
      memberships =
          λ x u. ground (arith, more (is_membership x u), none_pair, governed.memberships x u);
      anchored =
          All-append _ db.members (m ∷ [])
            (All-imp _ _ db.members (λ x h. ground (arith, wider x.workspace_id, h))
              governed.anchored)
            (ground (arith, wider m.workspace_id, here), tt);
      limited = λ x. ground (arith, more (is_in x), empty, here, governed.limited x);
      owned =
          All-append _ db.workspaces (w ∷ [])
            (All-imp _ _ db.workspaces (λ x one. omega (arith, more (is_owner_in x.id)))
              governed.owned)
            (ground (arith, more (is_owner_in w.id), here, owner_role), tt);
    }

create-IsGoverned :
    (py : Strings) (fresh : Fresh) (user_id : ℕ) (request : CreateWorkspaceRequest) (db : Db)
    {r : Workspace}
    → IsGoverned db
    → (create py.lower py.strip fresh user_id request db).0 ≡ ok r
    → IsGoverned (create py.lower py.strip fresh user_id request db).1
unfolding create
create-IsGoverned py fresh user_id request db governed h =
    let slug = py.strip (py.lower request.slug) in
    let w = new_workspace fresh user_id slug request in
    let m = bootstrap_membership fresh user_id in
    let (u0, valid) = bind-ok (lift (validate_slug slug)) _ db h in
    elim (Bool-cases (is_none (find_by_slug slug db))) [
      | inr f ↦ cc (rw (valid, f) at h)
      | inl f ↦
          let (u1, added) = bind-ok (add_workspace w) _ db (rw (valid, f) at h) in
          let (new_w, new_slug, after_w) = add_workspace-ok w db added in
          let db1 = record db { workspaces = db.workspaces ++ w ∷ [] } in
          let (u2, seated) =
            bind-ok (add_membership m) _ db1 (rw (valid, f, added, after_w) at h) in
          let (new_id, new_pair, known, after_m) = add_membership-ok m db1 seated in
          rw (valid, f, added, after_w, seated, after_m)
            (created-IsGoverned db w m refl refl new_w new_id new_pair governed)
    ]

handle-IsGoverned :
    (py : Strings) (r : Request) (db : Db) → IsGoverned db → IsGoverned (handle py r db)
unfolding handle
handle-IsGoverned py (Request.create_workspace fresh u request) db h =
    settled_ok IsGoverned db (create py.lower py.strip fresh u request db) h
      (λ a. create-IsGoverned py fresh u request db h)
handle-IsGoverned py (Request.edit_workspace w request) db h =
    settled_ok IsGoverned db (update w request db) h (λ a. update-IsGoverned w request db h)
handle-IsGoverned py (Request.delete_workspace now w) db h =
    settled_ok IsGoverned db (soft_delete now w db) h (λ a. soft_delete-IsGoverned now w db h)
handle-IsGoverned py (Request.add_workspace_member i now w inviter u role) db h =
    settled_ok IsGoverned db (add_member i now w inviter u role db) h
      (λ a. add_member-IsGoverned i now w inviter u role db h)
handle-IsGoverned py (Request.change_member_role w u role) db h =
    settled_ok IsGoverned db (change_role w u role db) h (λ a. change_role-IsGoverned w u role db h)
handle-IsGoverned py (Request.remove_workspace_member w u) db h =
    settled_ok IsGoverned db (remove_member w u db) h (λ a. remove_member-IsGoverned w u db h)

-- After any sequence of requests to create, update and delete workspaces and to add, change and remove
-- members, one after the other: every workspace has an owner, a user has at most one role in a
-- workspace, and no workspace has more than 1000 members, if this was so at the start.
pub serve-IsGoverned :
    (py : Strings) (db : Db) (requests : List Request)
    → IsGoverned db
    → IsGoverned (serve py db requests)
unfolding serve
serve-IsGoverned py db [] h = h
serve-IsGoverned py db (r ∷ rest) h =
    serve-IsGoverned py (handle py r db) rest (handle-IsGoverned py r db h)

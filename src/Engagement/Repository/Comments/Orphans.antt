-- ===== src/Engagement/Repository/Comments/Orphans.antt =====
-- What a deletion of comments leaves, its cascade included: no reply without its parent.
use fastapi_base.Prelude.{
  Bool, ℕ, zero, suc, ◌≤◌, ◌≡◌, refl, ◌∙◌, true, false, some, List, [], ◌∷◌, any, delete,
  delete_none, map_same, ◌==◌, length, ok, arith, Bool-cases, inl, inr, ◌⊎◌,
}
use fastapi_base.Engagement.Model.{Post, PostComment, Db}
use fastapi_base.Engagement.Triggers.{
  execute_change, after_change, all_pass, rows_after, fire_all, fire,
}
use fastapi_base.Engagement.Repository.Comments.{
  has_id, is_one_of, ids_of, children_of, remove_ids, delete_cascade, hard_delete,
}
use fastapi_base.Engagement.Repository.Comments.Cascade.{
  is_child, is_taken, child-left, child-next, row-left, none_taken, child_taken, child-kept,
  any-delete, any-delete_self, is_reply, spared-next, no_children, length-delete_taken, fewer_rows,
}

-- A row whose parent is to go still has its parent, or is to go itself.
abbrev IsClosed : List ℕ → List PostComment → Type 0
IsClosed ids rows =
    (id parent : ℕ)
    → any (is_child id parent) rows ≡ true
    → is_one_of ids (some parent) ≡ true
    → (any (has_id parent) rows ≡ true) ⊎ (is_one_of ids (some id) ≡ true)

rows_after-remove :
    (ids : List ℕ) (rows : List PostComment)
    → rows_after (remove_ids ids) rows ≡ delete (is_taken ids) rows
unfolding rows_after remove_ids
rows_after-remove ids [] = refl
rows_after-remove ids (c ∷ rows) = elim (Bool-cases (is_taken ids c)) [
  | inl e ↦ rw (e, rows_after-remove ids rows) refl
  | inr e ↦ rw (e, rows_after-remove ids rows) refl
]

all_pass-remove : (ids : List ℕ) (rows : List PostComment) → all_pass (remove_ids ids) rows ≡ true
unfolding all_pass remove_ids
all_pass-remove ids [] = refl
all_pass-remove ids (c ∷ rows) = elim (Bool-cases (is_taken ids c)) [
  | inl e ↦ rw e (all_pass-remove ids rows)
  | inr e ↦ rw e (all_pass-remove ids rows)
]

fire_all-remove_none :
    (ids : List ℕ) (rows : List PostComment) (p : Post)
    → any (is_taken ids) rows ≡ false
    → fire_all (remove_ids ids) rows p ≡ p
unfolding fire_all remove_ids fire
fire_all-remove_none ids [] p h = refl
fire_all-remove_none ids (c ∷ rows) p h = elim (Bool-cases (is_taken ids c)) [
  | inl e ↦ cc (rw e at h)
  | inr e ↦ rw e (fire_all-remove_none ids rows p (rw e at h))
]

after_change-remove_none :
    (ids : List ℕ) (db : Db)
    → any (is_taken ids) db.comments ≡ false
    → after_change (remove_ids ids) db ≡ db
unfolding after_change
after_change-remove_none ids db h =
    rw
      (
        rows_after-remove ids db.comments,
        delete_none (is_taken ids) db.comments h,
        map_same _ db.posts (λ p. fire_all-remove_none ids db.comments p h),
      )
      refl

delete_cascade-suc :
    (fuel : ℕ) (ids : List ℕ) (db : Db)
    → delete_cascade (suc fuel) ids db
      ≡ delete_cascade fuel
          (ids_of (children_of ids db.comments))
          (after_change (remove_ids ids) db)
unfolding delete_cascade execute_change
delete_cascade-suc fuel ids db = rw (all_pass-remove ids db.comments) refl

no_taken : (rows : List PostComment) → any (is_taken []) rows ≡ false
no_taken [] = refl
no_taken (c ∷ rows) = no_taken rows

-- A round that finds no row to take is the last that has an effect.
delete_cascade_quiet :
    (fuel : ℕ) (ids : List ℕ) (db : Db)
    → IsClosed ids db.comments
    → any (is_taken ids) db.comments ≡ false
    → delete_cascade fuel ids db ≡ (ok tt, db)
unfolding delete_cascade
delete_cascade_quiet zero ids db closed quiet = refl
delete_cascade_quiet (suc fuel) ids db closed quiet =
    let rest = no_children ids db.comments (λ id parent h.
      elim (Bool-cases (is_one_of ids (some parent))) [
        | inr e ↦ e
        | inl e ↦ elim (closed id parent h e) [
          | inl present ↦ none_taken ids parent db.comments quiet present
          | inr taken ↦ cc (child_taken ids id parent db.comments quiet h, taken)
        ]
      ]) in
    delete_cascade-suc fuel ids db
    ∙ rw (rest, after_change-remove_none ids db quiet)
        (delete_cascade_quiet fuel [] db (λ id parent h taken. cc) (no_taken db.comments))

-- Every reply has its parent in the table: the foreign key fk_post_comments_parent_comment_id.
abbrev pub HasParents : List PostComment → Type 0
HasParents rows =
    (id parent : ℕ) → any (is_child id parent) rows ≡ true → any (has_id parent) rows ≡ true

-- the same within a cascade, but for the replies that are to go next
abbrev IsPending : List ℕ → List PostComment → Type 0
IsPending ids rows =
    (id parent : ℕ)
    → any (is_child id parent) rows ≡ true
    → (any (has_id parent) rows ≡ true) ⊎ (is_one_of ids (some id) ≡ true)

round-IsPending :
    (ids : List ℕ) (rows : List PostComment)
    → IsPending ids rows
    → IsPending (ids_of (children_of ids rows)) (rows_after (remove_ids ids) rows)
round-IsPending ids rows pending = rw (rows_after-remove ids rows) (λ id parent h.
    let before = child-left ids id parent rows h in
    elim (pending id parent before) [
      | inr taken ↦ cc (child-kept ids id parent rows h, taken)
      | inl present ↦ elim (Bool-cases (is_one_of ids (some parent))) [
        | inl e ↦ inr (child-next ids id parent rows before e)
        | inr e ↦ inl (row-left ids parent rows present e)
      ]
    ])

quiet-HasParents :
    (ids : List ℕ) (rows : List PostComment)
    → IsPending ids rows
    → any (is_taken ids) rows ≡ false
    → HasParents rows
quiet-HasParents ids rows pending quiet id parent h = elim (pending id parent h) [
  | inl present ↦ present
  | inr taken ↦ cc (child_taken ids id parent rows quiet h, taken)
]

-- With at least as many rounds as rows, the last round finds nothing to take.
delete_cascade-HasParents :
    (fuel : ℕ) (ids : List ℕ) (db : Db)
    → IsPending ids db.comments
    → length db.comments ≤ fuel
    → HasParents (delete_cascade fuel ids db).1.comments
unfolding after_change
delete_cascade-HasParents zero ids db pending enough =
    elim (Bool-cases (any (is_taken ids) db.comments)) [
      | inr quiet ↦
          rw (delete_cascade_quiet zero ids db (λ id parent h e. pending id parent h) quiet)
            (quiet-HasParents ids db.comments pending quiet)
      | inl taken ↦
          let fewer = fewer_rows (is_taken ids) db.comments taken in
          absurd (omega (arith, enough, fewer))
    ]
delete_cascade-HasParents (suc fuel) ids db pending enough =
    elim (Bool-cases (any (is_taken ids) db.comments)) [
      | inr quiet ↦
          rw (delete_cascade_quiet (suc fuel) ids db (λ id parent h e. pending id parent h) quiet)
            (quiet-HasParents ids db.comments pending quiet)
      | inl taken ↦
          let fewer = fewer_rows (is_taken ids) db.comments taken in
          let rest =
            delete_cascade-HasParents fuel (ids_of (children_of ids db.comments))
              (after_change (remove_ids ids) db) (round-IsPending ids db.comments pending)
              (rw (rows_after-remove ids db.comments) (omega (arith, enough, fewer))) in
          rw (delete_cascade-suc fuel ids db) rest
    ]

any-delete_cascade :
    (p : PostComment → Bool) (fuel : ℕ) (ids : List ℕ) (db : Db)
    → any p db.comments ≡ false
    → any p (delete_cascade fuel ids db).1.comments ≡ false
unfolding after_change delete_cascade
any-delete_cascade p zero ids db gone = gone
any-delete_cascade p (suc fuel) ids db gone = rw (delete_cascade-suc fuel ids db) (
    any-delete_cascade p fuel (ids_of (children_of ids db.comments))
      (after_change (remove_ids ids) db)
      (rw (rows_after-remove ids db.comments) (any-delete p (is_taken ids) db.comments gone)))

-- A comment that is no reply is taken by no later round.
delete_cascade-kept :
    (other fuel : ℕ) (ids : List ℕ) (db : Db)
    → is_one_of ids (some other) ≡ false
    → any (is_reply other) db.comments ≡ false
    → any (has_id other) db.comments ≡ true
    → any (has_id other) (delete_cascade fuel ids db).1.comments ≡ true
unfolding after_change delete_cascade
delete_cascade-kept other zero ids db spared top here = here
delete_cascade-kept other (suc fuel) ids db spared top here =
    let left = row-left ids other db.comments here spared in
    let rows = rows_after-remove ids db.comments in
    rw (delete_cascade-suc fuel ids db) (
      delete_cascade-kept other fuel (ids_of (children_of ids db.comments))
        (after_change (remove_ids ids) db) (spared-next ids other db.comments top)
        (rw rows (any-delete (is_reply other) (is_taken ids) db.comments top)) (rw rows left))

-- When every reply has its parent, then after the deletion of a comment the comment is gone, every reply
-- that is left has its parent, and any other comment that is no reply is still there.
pub hard_delete-HasParents :
    (comment_id other : ℕ) (db : Db)
    → HasParents db.comments
    → (other == comment_id) ≡ false
    → any (is_reply other) db.comments ≡ false
    → any (has_id other) db.comments ≡ true
    → let rows = (hard_delete comment_id db).1.comments in
      (any (has_id comment_id) rows ≡ false) × HasParents rows × (any (has_id other) rows ≡ true)
unfolding hard_delete after_change
hard_delete-HasParents comment_id other db parents distinct top here =
    let ids = comment_id ∷ [] in
    let next = ids_of (children_of ids db.comments) in
    let after = after_change (remove_ids ids) db in
    let rows = rows_after-remove ids db.comments in
    let fuel = length db.comments in
    let pending = round-IsPending ids db.comments (λ id parent h. inl (parents id parent h)) in
    rw (delete_cascade-suc fuel ids db) (
      any-delete_cascade (has_id comment_id) fuel next after
          (rw rows (any-delete_self comment_id db.comments)),
      delete_cascade-HasParents fuel next after pending
          (rw rows (length-delete_taken (is_taken ids) db.comments)),
      rw⁻¹ (delete_cascade-suc fuel ids db)
          (delete_cascade-kept other (suc fuel) ids db (ground (arith, distinct)) top here),
    )

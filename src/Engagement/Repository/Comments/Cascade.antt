-- ===== src/Engagement/Repository/Comments/Cascade.antt =====
-- The rows that a round of the cascade takes, and those that are left.
use fastapi_base.Prelude.{
  not, is_none, ℕ, ◌==◌, ◌≤◌, ◌<◌, ◌≡◌, refl, Bool, true, false, ◌&&◌, Option, none, some, List, [],
  ◌∷◌, is_num, any, delete, length, arith, Bool-cases, Option-cases, inl, inr,
}
use fastapi_base.Engagement.Model.{PostComment}
use fastapi_base.Engagement.Repository.Comments.{has_id, is_one_of, ids_of, children_of}

abbrev pub is_child : ℕ → ℕ → PostComment → Bool
is_child id parent c = c.id == id && is_num c.parent_comment_id parent

abbrev pub is_taken : List ℕ → PostComment → Bool
is_taken ids c = is_one_of ids (some c.id)

is_one_of-num :
    (ids : List ℕ) (o : Option ℕ) (n : ℕ)
    → is_num o n ≡ true
    → is_one_of ids o ≡ is_one_of ids (some n)
is_one_of-num ids none n h = cc
is_one_of-num ids (some m) n h = let same : m ≡ n = grind (arith, h) in rw same refl

pub child-left :
    (ids : List ℕ) (id parent : ℕ) (rows : List PostComment)
    → any (is_child id parent) (delete (is_taken ids) rows) ≡ true
    → any (is_child id parent) rows ≡ true
child-left ids id parent [] h = cc
child-left ids id parent (c ∷ rows) h = elim (Bool-cases (is_taken ids c)) [
  | inl e ↦ ground (arith, child-left ids id parent rows (rw e at h))
  | inr e ↦ ground (arith, child-left ids id parent rows, (rw e at h))
]

pub parent-present :
    (ids : List ℕ) (n : ℕ) (rows : List PostComment)
    → is_one_of (ids_of (children_of ids rows)) (some n) ≡ true
    → any (has_id n) rows ≡ true
parent-present ids n [] h = cc
parent-present ids n (c ∷ rows) h = elim (Bool-cases (is_one_of ids c.parent_comment_id)) [
  | inl e ↦ ground (arith, parent-present ids n rows, (rw e at h))
  | inr e ↦ ground (arith, parent-present ids n rows (rw e at h))
]

pub child-next :
    (ids : List ℕ) (id parent : ℕ) (rows : List PostComment)
    → any (is_child id parent) rows ≡ true
    → is_one_of ids (some parent) ≡ true
    → is_one_of (ids_of (children_of ids rows)) (some id) ≡ true
child-next ids id parent [] h taken = cc
child-next ids id parent (c ∷ rows) h taken = elim (Bool-cases (is_child id parent c)) [
  | inl e ↦
      let here : is_one_of ids c.parent_comment_id ≡ true =
        rw (is_one_of-num ids c.parent_comment_id parent (ground (arith, e))) taken in
      rw here (ground (arith, e))
  | inr e ↦ let rest = child-next ids id parent rows (rw e at h) taken in ground (arith, rest)
]

pub row-left :
    (ids : List ℕ) (n : ℕ) (rows : List PostComment)
    → any (has_id n) rows ≡ true
    → is_one_of ids (some n) ≡ false
    → any (has_id n) (delete (is_taken ids) rows) ≡ true
row-left ids n [] h kept = cc
row-left ids n (c ∷ rows) h kept = elim (Bool-cases (c.id == n)) [
  | inl e ↦ let same : c.id ≡ n = ground (arith, e) in rw (same, kept) (ground arith)
  | inr e ↦ let rest = row-left ids n rows (rw e at h) kept in ground (arith, rest)
]

pub none_taken :
    (ids : List ℕ) (n : ℕ) (rows : List PostComment)
    → any (is_taken ids) rows ≡ false
    → any (has_id n) rows ≡ true
    → is_one_of ids (some n) ≡ false
none_taken ids n [] h here = cc
none_taken ids n (c ∷ rows) h here = elim (Bool-cases (c.id == n)) [
  | inl e ↦
      let same : c.id ≡ n = ground (arith, e) in
      let kept : is_one_of ids (some c.id) ≡ false = ground (arith, h) in rw same at kept
  | inr e ↦ none_taken ids n rows (ground (arith, h)) (rw e at here)
]

child-row :
    (id parent : ℕ) (rows : List PostComment)
    → any (is_child id parent) rows ≡ true
    → any (has_id id) rows ≡ true
child-row id parent [] h = cc
child-row id parent (c ∷ rows) h = ground (arith, child-row id parent rows)

pub child_taken :
    (ids : List ℕ) (id parent : ℕ) (rows : List PostComment)
    → any (is_taken ids) rows ≡ false
    → any (is_child id parent) rows ≡ true
    → is_one_of ids (some id) ≡ false
child_taken ids id parent rows none_of h =
    none_taken ids id rows none_of (child-row id parent rows h)

is_one_of-none : (ids : List ℕ) → is_one_of ids none ≡ false
is_one_of-none [] = refl
is_one_of-none (i ∷ ids) = is_one_of-none ids

-- No row is taken after rows none of which has a parent that is.
pub no_children :
    (ids : List ℕ) (rows : List PostComment)
    → ((id parent : ℕ) → any (is_child id parent) rows ≡ true → is_one_of ids (some parent) ≡ false)
    → children_of ids rows ≡ []
no_children ids [] h = refl
no_children ids (c ∷ rows) h =
    let rest = no_children ids rows (λ id parent k. h id parent (ground (arith, k))) in
    elim (Option-cases c.parent_comment_id) [
      | inl e ↦ rw (e, is_one_of-none ids) rest
      | inr (parent, e) ↦ let kept = h c.id parent (rw e (ground arith)) in rw (e, kept) rest
    ]

pub length-delete_taken :
    (p : PostComment → Bool) (rows : List PostComment) → length (delete p rows) ≤ length rows
length-delete_taken p [] = omega arith
length-delete_taken p (c ∷ rows) = ground (arith, length-delete_taken p rows)

pub fewer_rows :
    (p : PostComment → Bool) (rows : List PostComment)
    → any p rows ≡ true
    → length (delete p rows) < length rows
fewer_rows p [] h = cc
fewer_rows p (c ∷ rows) h =
    let rest = length-delete_taken p rows in ground (arith, fewer_rows p rows, rest)

pub child-kept :
    (ids : List ℕ) (id parent : ℕ) (rows : List PostComment)
    → any (is_child id parent) (delete (is_taken ids) rows) ≡ true
    → is_one_of ids (some id) ≡ false
child-kept ids id parent [] h = cc
child-kept ids id parent (c ∷ rows) h = elim (Bool-cases (is_taken ids c)) [
  | inl e ↦ child-kept ids id parent rows (rw e at h)
  | inr e ↦ elim (Bool-cases (c.id == id)) [
    | inl f ↦ let same : c.id ≡ id = ground (arith, f) in rw same at e
    | inr f ↦ child-kept ids id parent rows (rw f at (rw e at h))
  ]
]

abbrev pub is_reply : ℕ → PostComment → Bool
is_reply comment_id c = c.id == comment_id && not (is_none c.parent_comment_id)

-- A comment that is no reply is not among the replies.
pub spared-next :
    (ids : List ℕ) (n : ℕ) (rows : List PostComment)
    → any (is_reply n) rows ≡ false
    → is_one_of (ids_of (children_of ids rows)) (some n) ≡ false
spared-next ids n [] top = refl
spared-next ids n (c ∷ rows) top =
    let rest = spared-next ids n rows (ground (arith, top)) in
    elim (Option-cases c.parent_comment_id) [
      | inl e ↦ rw (e, is_one_of-none ids) rest
      | inr (parent, e) ↦
          let distinct : (c.id == n) ≡ false = ground (arith, e, top) in
          elim (Bool-cases (is_one_of ids c.parent_comment_id)) [
            | inl f ↦ rw f (ground (arith, distinct, rest))
            | inr f ↦ rw f rest
          ]
    ]

pub any-delete :
    (p q : PostComment → Bool) (rows : List PostComment)
    → any p rows ≡ false
    → any p (delete q rows) ≡ false
any-delete p q [] h = refl
any-delete p q (c ∷ rows) h = ground (arith, any-delete p q rows)

pub any-delete_self :
    (n : ℕ) (rows : List PostComment) → any (has_id n) (delete (is_taken (n ∷ [])) rows) ≡ false
any-delete_self n [] = refl
any-delete_self n (c ∷ rows) = ground (arith, any-delete_self n rows)

-- ===== src/Posts/Versions/Retry.antt =====
-- add_with_retry against the sessions that number versions of the same post.
use fastapi_base.Prelude.{
  ℕ, ◌+◌, zero, suc, ◌≡◌, refl, ◌∙◌, Bool, if◌then◌else◌, true, false, ◌&&◌, not, is_none, List,
  ◌∷◌, any, count, arith, Bool-cases, inl, inr, Result, ok, err,
}
use fastapi_base.Posts.Model.{PostVersion, Db, State, Error, closed_transaction}
use fastapi_base.Posts.Repository.{has_post_id}
use fastapi_base.Posts.Versions.{
  is_numbered, max_version, is_accepted, insert_all, commit_elsewhere, rollback, next_row, first_of,
  rest_of, add_with_retry,
}
use fastapi_base.Posts.Versions.Numbering.{
  IsUnique, version-max_version, with_version-IsUnique, insert_all-IsUnique, insert_all-posts,
  insert_all-contents,
}

-- A property of both branches, each under what its test says.
pub if_either :
    (P : Result Error PostVersion × State → Type 0) (b : Bool)
    (x y : Result Error PostVersion × State)
    → (b ≡ true → P x)
    → (b ≡ false → P y)
    → P (if b then x else y)
if_either P true x y hx hy = hx refl
if_either P false x y hx hy = hy refl

-- in the transaction, and in what it falls back to
abbrev pub AreUnique : State → Type 0
AreUnique s = IsUnique s.begun.versions × IsUnique s.db.versions

pub add_with_retry-AreUnique :
    (attempts : ℕ) (rivals : List (List PostVersion)) (row : PostVersion) (s : State)
    → AreUnique s
    → AreUnique (add_with_retry attempts rivals row s).1
unfolding add_with_retry
add_with_retry-AreUnique zero rivals row s unique = unique
add_with_retry-AreUnique (suc attempts) rivals row s unique =
    let s' = commit_elsewhere (first_of rivals) s in
    let numbered = next_row row s.db in
    let begun = insert_all-IsUnique (first_of rivals) s.begun unique.0 in
    let now = insert_all-IsUnique (first_of rivals) s.db unique.1 in
    elim (Bool-cases (is_accepted numbered s'.db)) [
      | inl e ↦ rw e (begun, with_version-IsUnique numbered s'.db now e)
      | inr e ↦
          let retried =
            add_with_retry-AreUnique attempts (rest_of rivals) row (rollback s') (begun, begun) in
          rw e (if_either (λ r. AreUnique r.1) s.in_block _ _ (λ _. (begun, begun)) (λ _. retried))
    ]

-- the row without its number is one that the constraints accept
abbrev pub IsValid : PostVersion → State → Type 0
IsValid row s =
    (not (is_none row.content_hash) && not (row.is_published_snapshot && row.is_restored) ≡ true)
    × (any (has_post_id row.post_id) s.begun.posts ≡ true)

pub next_row-is_accepted :
    (row : PostVersion) (db : Db)
    → not (is_none row.content_hash) && not (row.is_published_snapshot && row.is_restored) ≡ true
    → any (has_post_id row.post_id) db.posts ≡ true
    → is_accepted (next_row row db) db ≡ true
next_row-is_accepted row db checks post =
    let top = max_version row.post_id db.versions in
    let free = version-max_version row.post_id (top + 1) db.versions (omega arith) in
    rw (free, post) (ground (arith, checks))

-- The row that was numbered is in the table once.
abbrev pub HasNew : PostVersion → Result Error PostVersion × State → Type 0
HasNew row r =
    (v : PostVersion) × (r.0 ≡ ok v)
    × (count (is_numbered row.post_id v.version) r.1.db.versions ≡ 1)

abbrev FallsBack : State → Result Error PostVersion × State → Type 0
FallsBack s r = (r.1.db.posts ≡ s.begun.posts) × (r.1.db.contents ≡ s.begun.contents)

fallen_back :
    (attempts : ℕ) (rivals : List (List PostVersion)) (row : PostVersion) (s : State)
    → (s.db.posts ≡ s.begun.posts) × (s.db.contents ≡ s.begun.contents)
    → let s' = (add_with_retry attempts rivals row s).1 in
      (s'.db.posts ≡ s.begun.posts) × (s'.db.contents ≡ s.begun.contents)
unfolding add_with_retry
fallen_back zero rivals row s same = same
fallen_back (suc attempts) rivals row s same =
    let rows = first_of rivals in
    let s' = commit_elsewhere rows s in
    let posts = insert_all-posts rows s.begun in
    let contents = insert_all-contents rows s.begun in
    elim (Bool-cases (is_accepted (next_row row s.db) s'.db)) [
      | inl e ↦ rw e (insert_all-posts rows s.db ∙ same.0, insert_all-contents rows s.db ∙ same.1)
      | inr e ↦
          let (p, c) = fallen_back attempts (rest_of rivals) row (rollback s') (refl, refl) in
          rw e (
            if_either (FallsBack s) s.in_block _ _ (λ _. (posts, contents))
              (λ _. (p ∙ posts, c ∙ contents)))
    ]

-- Where the first attempt loses its number to another session, the posts and the contents are again
-- those that the transaction began with, also when a later attempt then returns: whatever the caller
-- had written before it asked for the version row is lost.
pub add_with_retry-conflict :
    (attempts : ℕ) (rows : List PostVersion) (rest : List (List PostVersion)) (row : PostVersion)
    (s : State)
    → is_accepted (next_row row s.db) (insert_all rows s.db) ≡ false
    → let s' = (add_with_retry (suc attempts) (rows ∷ rest) row s).1 in
      (s'.db.posts ≡ s.begun.posts) × (s'.db.contents ≡ s.begun.contents)
unfolding add_with_retry
add_with_retry-conflict attempts rows rest row s refused =
    let s' = commit_elsewhere rows s in
    let (p, c) = fallen_back attempts rest row (rollback s') (refl, refl) in
    let posts = insert_all-posts rows s.begun in
    let contents = insert_all-contents rows s.begun in
    rw refused (
      if_either (FallsBack s) s.in_block _ _ (λ _. (posts, contents))
        (λ _. (p ∙ posts, c ∙ contents)))

-- In the transaction of an `async with session.begin()`, as in the sweeper's flush, there is no retry:
-- the first lost number ends the call with SQLAlchemy's InvalidRequestError, while attempts are left.
add_with_retry-block :
    (attempts : ℕ) (rows : List PostVersion) (rest : List (List PostVersion)) (row : PostVersion)
    (s : State)
    → s.in_block ≡ true
    → is_accepted (next_row row s.db) (insert_all rows s.db) ≡ false
    → (add_with_retry (suc (suc attempts)) (rows ∷ rest) row s).0 ≡ err closed_transaction
unfolding add_with_retry
add_with_retry-block attempts rows rest row s block refused = rw (refused, block) refl

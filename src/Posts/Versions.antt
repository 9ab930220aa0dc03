-- ===== src/Posts/Versions.antt =====
-- PostVersionRepository (apps/blog/repositories/_post_version.py) on the table post_versions. The rows
-- that other sessions commit between the SELECT of a number and its INSERT are arguments. Of the
-- foreign keys, the one to the post is modelled.
pub mod Numbering
pub mod Retry
pub mod Alone
use fastapi_base.Prelude.{
  ℕ, ◌+◌, zero, suc, ◌==◌, leb, Bool, true, false, ◌&&◌, ◌||◌, not, Option, none, some, List, [],
  ◌∷◌, ◌++◌, is_none, select, first, any, count, delete, map, order_by, take, drop, ok, err, gets,
  if◌then◌else◌,
}
use fastapi_base.Posts.Model.{
  PostVersion, Post, Db, State, Action, Error, version_conflict, closed_transaction,
}
use fastapi_base.Posts.Repository.{has_post_id, on_db, is_in}

abbrev pub is_version_of : ℕ → PostVersion → Bool
is_version_of post_id v = v.post_id == post_id

abbrev pub is_numbered : ℕ → ℕ → PostVersion → Bool
is_numbered post_id version v = v.post_id == post_id && v.version == version

-- `coalesce(max(version), 0)` WHERE post_id
unfoldable pub max_version : ℕ → List PostVersion → ℕ
max_version post_id [] = 0
max_version post_id (v ∷ vs) =
    let rest = max_version post_id vs in
    if v.post_id == post_id then (if leb rest v.version then v.version else rest) else rest

abbrev pub is_newer : PostVersion → PostVersion → Bool
is_newer v w = leb w.version v.version

-- ORDER BY version DESC LIMIT 1
unfoldable pub find_latest_for_post : ℕ → Db → Option PostVersion
find_latest_for_post post_id db =
    first (λ _. true) (order_by is_newer (select (is_version_of post_id) db.versions))

unfoldable pub find_by_post_and_version : ℕ → ℕ → Db → Option PostVersion
find_by_post_and_version post_id version db = first (is_numbered post_id version) db.versions

-- a page, newest first, and the total
unfoldable pub list_for_post : ℕ → ℕ → ℕ → Db → List PostVersion × ℕ
list_for_post post_id limit offset db = (
  take limit (drop offset (order_by is_newer (select (is_version_of post_id) db.versions))),
  count (is_version_of post_id) db.versions,
)

-- the CHECK constraints of post_versions; a hash of 64 characters is one that is there
abbrev pub satisfies_checks : PostVersion → Bool
satisfies_checks v =
    leb 1 v.version
    && not (is_none v.content_hash)
    && not (v.is_published_snapshot && v.is_restored)

-- uq_post_versions_post_version, the CHECKs and the foreign key
abbrev pub is_accepted : PostVersion → Db → Bool
is_accepted v db =
    not (any (is_numbered v.post_id v.version) db.versions)
    && satisfies_checks v
    && any (has_post_id v.post_id) db.posts

abbrev pub with_version : PostVersion → Db → Db
with_version v db = record db { versions = db.versions ++ v ∷ [] }

abbrev pub insert_version : PostVersion → Db → Db
insert_version v db = if is_accepted v db then with_version v db else db

-- other sessions' rows, as far as the constraints accept them
abbrev pub insert_all : List PostVersion → Db → Db
insert_all [] db = db
insert_all (v ∷ vs) db = insert_all vs (insert_version v db)

-- what other sessions commit is seen by this transaction and outlives its rollback
abbrev pub commit_elsewhere : List PostVersion → State → State
commit_elsewhere rows s = record s { begun = insert_all rows s.begun; db = insert_all rows s.db }

-- `session.rollback()`; that it also ends the transaction of a block is what `give_up` stands for
abbrev pub rollback : State → State
rollback s = record s { db = s.begun }

abbrev pub next_row : PostVersion → Db → PostVersion
next_row row db = record row { version = max_version row.post_id db.versions + 1 }

-- The attempts that are left after the rollback has closed the transaction of a block: the next one's
-- SELECT is refused, and without a next one the conflict is raised.
abbrev pub give_up : ℕ → Error
give_up zero = version_conflict
give_up (suc attempts) = closed_transaction

abbrev pub first_of : List (List PostVersion) → List PostVersion
first_of [] = []
first_of (rows ∷ rest) = rows

abbrev pub rest_of : List (List PostVersion) → List (List PostVersion)
rest_of [] = []
rest_of (rows ∷ rest) = rest

-- An IntegrityError is followed by `session.rollback()`. `row` comes without its number. `rivals` has the rows that others commit within each attempt, and
-- the number is how many attempts are left.
unfoldable pub add_with_retry : ℕ → List (List PostVersion) → PostVersion → Action PostVersion
add_with_retry zero rivals row s = (err version_conflict, s)
add_with_retry (suc attempts) rivals row s =
    let numbered = next_row row s.db in
    let s' = commit_elsewhere (first_of rivals) s in
    let retried = add_with_retry attempts (rest_of rivals) row (rollback s') in
    if is_accepted numbered s'.db
    then (ok numbered, on_db (with_version numbered) s')
    else if s.in_block
    then (err (give_up attempts), rollback s')
    else retried

abbrev pub is_eligible : ℕ → PostVersion → Bool
is_eligible post_id v = v.post_id == post_id && not v.is_published_snapshot

abbrev pub is_descending : ℕ → ℕ → Bool
is_descending a b = leb b a

-- list_non_published_version_numbers with newest_first=True
unfoldable pub list_non_published_version_numbers : ℕ → Db → List ℕ
list_non_published_version_numbers post_id db =
    order_by is_descending (map (λ v. v.version) (select (is_eligible post_id) db.versions))

abbrev pub is_purged : ℕ → List ℕ → PostVersion → Bool
is_purged post_id keep_versions v = is_eligible post_id v && not (is_in v.version keep_versions)

-- the number of rows deleted, and the DELETE
unfoldable pub purge_eligible : ℕ → List ℕ → Db → ℕ × Db
purge_eligible post_id keep_versions db = (
  count (is_purged post_id keep_versions) db.versions,
  record db { versions = delete (is_purged post_id keep_versions) db.versions },
)

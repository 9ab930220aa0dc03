-- ===== src/Posts/Retention.antt =====
-- apps/blog/sweepers/_post_version.py: the trim of one post's versions, and a tick over the posts that
-- have too many. Each post is trimmed in a transaction of its own.
pub mod Trim
pub mod Newest
use fastapi_base.Prelude.{
  ℕ, ◌+◌, ltb, leb, Bool, true, false, ◌&&◌, not, List, [], ◌∷◌, count, select, take, map,
  if◌then◌else◌,
}
use fastapi_base.Posts.Model.{PostVersion, Db}
use fastapi_base.Posts.Repository.{distinct}
use fastapi_base.Posts.Versions.{is_eligible, list_non_published_version_numbers, purge_eligible}

abbrev pub version_retention_slack : ℕ
version_retention_slack = 5

-- the number of rows deleted, and the database after it
unfoldable pub trim_post : ℕ → ℕ → Db → ℕ × Db
trim_post post_id retention_limit db =
    purge_eligible post_id (take retention_limit (list_non_published_version_numbers post_id db)) db

abbrev pub is_over : ℕ → Db → ℕ → Bool
is_over bound db post_id = ltb bound (count (is_eligible post_id) db.versions)

-- GROUP BY post_id HAVING count(*) > limit + slack LIMIT batch_size
unfoldable pub find_posts_over_retention : ℕ → ℕ → ℕ → Db → List ℕ
find_posts_over_retention retention_limit slack batch_size db = take batch_size (
    select (is_over (retention_limit + slack) db)
      (distinct (map (λ v. v.post_id) (select (λ v. not v.is_published_snapshot) db.versions))))

-- the sum of the deleted rows, and the database after the candidates' transactions
unfoldable pub trim_all : ℕ → List ℕ → Db → ℕ × Db
trim_all retention_limit [] db = (0, db)
trim_all retention_limit (post_id ∷ rest) db =
    let (deleted, db') = trim_post post_id retention_limit db in
    let (purged, after) = trim_all retention_limit rest db' in (deleted + purged, after)

unfoldable pub sweep_post_versions_once : ℕ → ℕ → Db → ℕ × Db
sweep_post_versions_once batch_size retention_limit db =
    trim_all retention_limit
      (find_posts_over_retention retention_limit version_retention_slack batch_size db) db

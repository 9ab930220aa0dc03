-- ===== src/Posts/Retention/Trim.antt =====
-- What a trim leaves.
use fastapi_base.Prelude.{
  ℕ, ◌+◌, ◌≤◌, ◌≡◌, refl, Bool, ◌&&◌, not, List, [], ◌∷◌, count, select, delete, take, length,
  length-take, arith, Bool-cases, inl, inr,
}
use fastapi_base.Posts.Model.{PostVersion, Db}
use fastapi_base.Posts.Repository.{is_in}
use fastapi_base.Posts.Versions.{
  is_numbered, is_eligible, is_purged, purge_eligible, list_non_published_version_numbers,
}
use fastapi_base.Posts.Versions.Numbering.{IsUnique}
use fastapi_base.Posts.Retention.{trim_post}

abbrev pub is_kept : ℕ → List ℕ → PostVersion → Bool
is_kept post_id keep v = is_eligible post_id v && is_in v.version keep

count_split :
    (post_id k : ℕ) (keep : List ℕ) (vs : List PostVersion)
    → count (is_kept post_id (k ∷ keep)) vs
      ≤ count (is_numbered post_id k) vs + count (is_kept post_id keep) vs
count_split post_id k keep [] = omega arith
count_split post_id k keep (v ∷ vs) = ground (arith, count_split post_id k keep vs)

count_kept_none : (post_id : ℕ) (vs : List PostVersion) → count (is_kept post_id []) vs ≡ 0
count_kept_none post_id [] = refl
count_kept_none post_id (v ∷ vs) = ground (arith, count_kept_none post_id vs)

-- At most one row has each of the numbers.
count_kept :
    (post_id : ℕ) (keep : List ℕ) (vs : List PostVersion)
    → IsUnique vs
    → count (is_kept post_id keep) vs ≤ length keep
count_kept post_id [] vs unique = omega (arith, count_kept_none post_id vs)
count_kept post_id (k ∷ keep) vs unique =
    omega
      (arith, count_split post_id k keep vs, unique post_id k, count_kept post_id keep vs unique)

count_after_purge :
    (post_id : ℕ) (keep : List ℕ) (vs : List PostVersion)
    → count (is_eligible post_id) (delete (is_purged post_id keep) vs)
      ≡ count (is_kept post_id keep) vs
count_after_purge post_id keep [] = refl
count_after_purge post_id keep (v ∷ vs) = ground (arith, count_after_purge post_id keep vs)

trim_post-bound :
    (post_id retention_limit : ℕ) (db : Db)
    → IsUnique db.versions
    → count (is_eligible post_id) (trim_post post_id retention_limit db).1.versions
      ≤ retention_limit
unfolding trim_post purge_eligible
trim_post-bound post_id retention_limit db unique =
    let numbers = list_non_published_version_numbers post_id db in
    let keep = take retention_limit numbers in
    omega (
      arith,
      count_after_purge post_id keep db.versions,
      count_kept post_id keep db.versions unique,
      length-take retention_limit numbers,
    )

trim_post-published :
    (post_id retention_limit : ℕ) (db : Db)
    → let is_exempt = λ (v : PostVersion). not (is_eligible post_id v) in
      select is_exempt (trim_post post_id retention_limit db).1.versions
      ≡ select is_exempt db.versions
unfolding trim_post purge_eligible
trim_post-published post_id retention_limit db =
    go (take retention_limit (list_non_published_version_numbers post_id db)) db.versions
  where
    go :
        (keep : List ℕ) (vs : List PostVersion)
        → select (λ v. not (is_eligible post_id v)) (delete (is_purged post_id keep) vs)
          ≡ select (λ v. not (is_eligible post_id v)) vs
    go keep [] = refl
    go keep (v ∷ vs) = elim (Bool-cases (is_eligible post_id v)) [
      | inr e ↦ rw (e, e) (rw (go keep vs) refl)
      | inl e ↦ elim (Bool-cases (is_in v.version keep)) [
        | inl kept ↦ rw (e, kept, e) (go keep vs)
        | inr gone ↦ rw (e, gone) (go keep vs)
      ]
    ]

-- A trim leaves at most `retention_limit` versions of the post that are no published snapshot, and
-- leaves every published snapshot and every version of another post, in their places.
pub trim_post-retains :
    (post_id retention_limit : ℕ) (db : Db)
    → IsUnique db.versions
    → let after = (trim_post post_id retention_limit db).1.versions in
      let is_exempt = λ (v : PostVersion). not (is_eligible post_id v) in
      (count (is_eligible post_id) after ≤ retention_limit)
      × (select is_exempt after ≡ select is_exempt db.versions)
trim_post-retains post_id retention_limit db unique = (
  trim_post-bound post_id retention_limit db unique,
  trim_post-published post_id retention_limit db,
)

-- ===== src/Posts/Versions/Numbering.antt =====
-- The numbers of a post's versions: uq_post_versions_post_version as an invariant, and the highest.
use fastapi_base.Prelude.{
  ℕ, ◌≤◌, ◌<◌, ◌≡◌, refl, true, false, List, [], ◌∷◌, any, count, count-append,
  count-zero_of_not_any, arith, Bool-cases, inl, inr, ◌∙◌,
}
use fastapi_base.Posts.Model.{PostVersion, Db}
use fastapi_base.Posts.Versions.{
  is_numbered, max_version, is_accepted, with_version, insert_version, insert_all,
}

abbrev pub IsUnique : List PostVersion → Type 0
IsUnique versions = (post_id version : ℕ) → count (is_numbered post_id version) versions ≤ 1

pub version-max_version :
    (post_id version : ℕ) (versions : List PostVersion)
    → max_version post_id versions < version
    → any (is_numbered post_id version) versions ≡ false
unfolding max_version
version-max_version post_id version [] above = refl
version-max_version post_id version (v ∷ versions) above =
    ground (arith, above, version-max_version post_id version versions)

pub with_version-IsUnique :
    (v : PostVersion) (db : Db)
    → IsUnique db.versions
    → is_accepted v db ≡ true
    → IsUnique (with_version v db).versions
with_version-IsUnique v db unique accepted post_id version =
    let free : any (is_numbered v.post_id v.version) db.versions ≡ false =
      ground (arith, accepted) in
    let none_yet = count-zero_of_not_any (is_numbered v.post_id v.version) db.versions free in
    let split = count-append (is_numbered post_id version) db.versions (v ∷ []) in
    let before = unique post_id version in
    elim (Bool-cases (is_numbered post_id version v)) [
      | inl e ↦
          let same_post : v.post_id ≡ post_id = ground (arith, e) in
          let same_version : v.version ≡ version = ground (arith, e) in
          let here : count (is_numbered post_id version) db.versions ≡ 0 =
            rw (same_post, same_version) at none_yet in
          ground (arith, split, here, e)
      | inr e ↦ ground (arith, split, before, e)
    ]

insert_version-IsUnique :
    (v : PostVersion) (db : Db) → IsUnique db.versions → IsUnique (insert_version v db).versions
insert_version-IsUnique v db unique = elim (Bool-cases (is_accepted v db)) [
  | inl e ↦ rw e (with_version-IsUnique v db unique e)
  | inr e ↦ rw e unique
]

pub insert_all-IsUnique :
    (rows : List PostVersion) (db : Db)
    → IsUnique db.versions
    → IsUnique (insert_all rows db).versions
insert_all-IsUnique [] db unique = unique
insert_all-IsUnique (v ∷ rows) db unique =
    insert_all-IsUnique rows (insert_version v db) (insert_version-IsUnique v db unique)

insert_version-posts : (v : PostVersion) (db : Db) → (insert_version v db).posts ≡ db.posts
insert_version-posts v db = elim (Bool-cases (is_accepted v db)) [
  | inl e ↦ rw e refl
  | inr e ↦ rw e refl
]

insert_version-contents : (v : PostVersion) (db : Db) → (insert_version v db).contents ≡ db.contents
insert_version-contents v db = elim (Bool-cases (is_accepted v db)) [
  | inl e ↦ rw e refl
  | inr e ↦ rw e refl
]

pub insert_all-posts : (rows : List PostVersion) (db : Db) → (insert_all rows db).posts ≡ db.posts
insert_all-posts [] db = refl
insert_all-posts (v ∷ rows) db =
    insert_all-posts rows (insert_version v db) ∙ insert_version-posts v db

pub insert_all-contents :
    (rows : List PostVersion) (db : Db) → (insert_all rows db).contents ≡ db.contents
insert_all-contents [] db = refl
insert_all-contents (v ∷ rows) db =
    insert_all-contents rows (insert_version v db) ∙ insert_version-contents v db

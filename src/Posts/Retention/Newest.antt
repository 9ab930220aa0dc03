-- ===== src/Posts/Retention/Newest.antt =====
-- A trim keeps the newest version, so that no number is given out twice.
use fastapi_base.Prelude.{
  ℕ, ◌≤◌, zero, suc, ◌≡◌, refl, ◌∙◌, ◌==◌, leb, Bool, true, false, ◌&&◌, ◌||◌, not, List, [], ◌∷◌,
  any, select, delete, take, map, order_by, insert_by, All, All-imp, All-order_by, IsSorted,
  order_by-IsSorted, arith, Bool-cases, inl, inr,
}
use fastapi_base.Posts.Model.{PostVersion, Db}
use fastapi_base.Posts.Repository.{is_in}
use fastapi_base.Posts.Versions.{
  is_numbered, is_eligible, is_purged, max_version, purge_eligible,
  list_non_published_version_numbers, is_descending,
}
use fastapi_base.Posts.Retention.{trim_post}

max_version-delete :
    (post_id : ℕ) (p : PostVersion → Bool) (vs : List PostVersion)
    → max_version post_id (delete p vs) ≤ max_version post_id vs
unfolding max_version
max_version-delete post_id p [] = omega arith
max_version-delete post_id p (v ∷ vs) = ground (arith, max_version-delete post_id p vs)

-- a row that is left counts
max_version_left :
    (post_id m : ℕ) (p : PostVersion → Bool) (vs : List PostVersion)
    → any (λ v. is_numbered post_id m v && not (p v)) vs ≡ true
    → m ≤ max_version post_id (delete p vs)
unfolding max_version
max_version_left post_id m p [] h = ground (arith, h)
max_version_left post_id m p (v ∷ vs) h = ground (arith, h, max_version_left post_id m p vs)

max_version_reached :
    (post_id : ℕ) (vs : List PostVersion)
    → 1 ≤ max_version post_id vs
    → any (is_numbered post_id (max_version post_id vs)) vs ≡ true
unfolding max_version
max_version_reached post_id [] h = ground (arith, h)
max_version_reached post_id (v ∷ vs) h = ground (arith, h, max_version_reached post_id vs)

any-insert_by :
    (p : ℕ → Bool) (x : ℕ) (xs : List ℕ) → any p (insert_by is_descending x xs) ≡ (p x || any p xs)
any-insert_by p x [] = refl
any-insert_by p x (y ∷ ys) = ground (arith, any-insert_by p x ys)

any-order_by : (p : ℕ → Bool) (xs : List ℕ) → any p (order_by is_descending xs) ≡ any p xs
any-order_by p [] = refl
any-order_by p (x ∷ xs) = rw (any-insert_by p x (order_by is_descending xs), any-order_by p xs) refl

abbrev numbers_of : ℕ → List PostVersion → List ℕ
numbers_of post_id vs = map (λ v. v.version) (select (is_eligible post_id) vs)

numbers_below :
    (post_id : ℕ) (vs : List PostVersion)
    → All (λ n. n ≤ max_version post_id vs) (numbers_of post_id vs)
unfolding max_version
numbers_below post_id [] = tt
numbers_below post_id (v ∷ vs) =
    let m = max_version post_id (v ∷ vs) in
    let m' = max_version post_id vs in
    let grows : max_version post_id vs ≤ max_version post_id (v ∷ vs) = ground arith in
    let rest =
      All-imp (λ n. n ≤ m') (λ n. n ≤ m) (numbers_of post_id vs) (λ n le. omega (arith, le, grows))
        (numbers_below post_id vs) in
    elim (Bool-cases (is_eligible post_id v)) [
      | inl e ↦ rw e (ground (arith, e), rest)
      | inr e ↦ rw e rest
    ]

in_below :
    (m x : ℕ) (xs : List ℕ) → All (λ y. is_descending x y ≡ true) xs → is_in m xs ≡ true → m ≤ x
in_below m x [] sorted h = ground (arith, h)
in_below m x (y ∷ ys) sorted h =
    let head = sorted.0 in let rest = in_below m x ys sorted.1 in ground (arith, head, rest, h)

descending-IsSorted : (xs : List ℕ) → IsSorted is_descending (order_by is_descending xs)
descending-IsSorted =
    order_by-IsSorted is_descending (λ x y h. ground (arith, h)) (λ x y z h k. ground (arith, h, k))

-- the greatest number of a list in descending order stands first
max-take :
    (m n : ℕ) (xs : List ℕ)
    → IsSorted is_descending xs
    → All (λ x. x ≤ m) xs
    → is_in m xs ≡ true
    → is_in m (take (suc n) xs) ≡ true
max-take m n [] sorted below h = h
max-take m n (x ∷ xs) sorted below h = elim (Bool-cases (x == m)) [
  | inl e ↦ rw e refl
  | inr e ↦
      let le = below.0 in let ge = in_below m x xs sorted.0 (rw e at h) in ground (arith, e, le, ge)
]

left_in :
    (post_id m : ℕ) (keep : List ℕ) (vs : List PostVersion)
    → is_in m keep ≡ true
    → any (is_numbered post_id m) vs ≡ true
    → any (λ v. is_numbered post_id m v && not (is_purged post_id keep v)) vs ≡ true
left_in post_id m keep [] kept h = h
left_in post_id m keep (v ∷ vs) kept h = elim (Bool-cases (is_numbered post_id m v)) [
  | inl e ↦
      let equal : v.version ≡ m = ground (arith, e) in
      let here : is_in v.version keep ≡ true = rw equal kept in ground (arith, e, here)
  | inr e ↦ ground (arith, e, h, left_in post_id m keep vs)
]

left_out :
    (post_id m : ℕ) (keep : List ℕ) (vs : List PostVersion)
    → is_in m (numbers_of post_id vs) ≡ false
    → any (is_numbered post_id m) vs ≡ true
    → any (λ v. is_numbered post_id m v && not (is_purged post_id keep v)) vs ≡ true
left_out post_id m keep [] out h = h
left_out post_id m keep (v ∷ vs) out h = elim (Bool-cases (is_eligible post_id v)) [
  | inl e ↦
      let rest = left_out post_id m keep vs in
      let out' : (v.version == m || is_in m (numbers_of post_id vs)) ≡ false = rw e at out in
      ground (arith, e, out', h, rest)
  | inr e ↦ let rest = left_out post_id m keep vs (rw e at out) in ground (arith, e, h, rest)
]

newest_left :
    (post_id n : ℕ) (vs : List PostVersion)
    → let m = max_version post_id vs in
      let keep = take (suc n) (order_by is_descending (numbers_of post_id vs)) in
      1 ≤ m → any (λ v. is_numbered post_id m v && not (is_purged post_id keep v)) vs ≡ true
newest_left post_id n vs some_version =
    let m = max_version post_id vs in
    let numbers = numbers_of post_id vs in
    let ordered = order_by is_descending numbers in
    let keep = take (suc n) ordered in
    let reached = max_version_reached post_id vs some_version in
    elim (Bool-cases (is_in m numbers)) [
      | inl e ↦
          left_in post_id m keep vs
            (max-take m n ordered (descending-IsSorted numbers)
              (All-order_by is_descending (λ x. x ≤ m) numbers (numbers_below post_id vs))
              (any-order_by (λ x. x == m) numbers ∙ e))
            reached
      | inr e ↦ left_out post_id m keep vs e reached
    ]

-- A trim that keeps at least one version leaves the highest number of the post as it is, so that the
-- next version gets the number that it would have got without the trim.
pub trim_post-max_version :
    (post_id retention_limit : ℕ) (db : Db)
    → 1 ≤ retention_limit
    → max_version post_id (trim_post post_id retention_limit db).1.versions
      ≡ max_version post_id db.versions
unfolding trim_post purge_eligible list_non_published_version_numbers
trim_post-max_version post_id zero db some_kept = ground (arith, some_kept)
trim_post-max_version post_id (suc n) db some_kept =
    let keep = take (suc n) (list_non_published_version_numbers post_id db) in
    let m = max_version post_id db.versions in
    let below = max_version-delete post_id (is_purged post_id keep) db.versions in
    elim (Bool-cases (leb 1 m)) [
      | inl e ↦
          let above =
            max_version_left post_id m (is_purged post_id keep) db.versions
              (newest_left post_id n db.versions (ground (arith, e))) in
          omega (arith, below, above)
      | inr e ↦ ground (arith, e, below)
    ]

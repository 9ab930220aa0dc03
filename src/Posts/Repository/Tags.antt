-- ===== src/Posts/Repository/Tags.antt =====
-- The tags of a post after replace_post_tags.
use fastapi_base.Prelude.{
  ℕ, ok, ==_refl, ◌≡◌, refl, sym, ◌∙◌, ◌==◌, Bool, true, false, ◌&&◌, ◌||◌, not, List, [], ◌∷◌, any,
  any-append, ◌++◌, select, delete, map, arith, if◌then◌else◌, Bool-cases, inl, inr,
}
use fastapi_base.Posts.Model.{Tag, PostTag, Db, State}
use fastapi_base.Posts.Repository.{
  is_in, distinct, tags_of, replace_post_tags, has_post_id, all_known, takes_links, missing_tags,
}

abbrev pub is_link : ℕ → ℕ → PostTag → Bool
is_link post_id tag_id l = l.post_id == post_id && l.tag_id == tag_id

is_in-distinct : (n : ℕ) (ns : List ℕ) → is_in n (distinct ns) ≡ is_in n ns
is_in-distinct n [] = refl
is_in-distinct n (m ∷ ns) = elim (Bool-cases (is_in m (distinct ns))) [
  | inr e ↦ rw (e, is_in-distinct n ns) refl
  | inl e ↦ elim (Bool-cases (m == n)) [
    | inr other ↦ rw (e, other) (is_in-distinct n ns)
    | inl same ↦
        let equal : m ≡ n = ground (arith, same) in
        let here : is_in n (distinct ns) ≡ true = rw equal at e in rw (e, same) here
  ]
]

is_in-tags_of :
    (post_id tag_id : ℕ) (links : List PostTag)
    → is_in tag_id (tags_of post_id links) ≡ any (is_link post_id tag_id) links
is_in-tags_of post_id tag_id [] = refl
is_in-tags_of post_id tag_id (l ∷ links) = elim (Bool-cases (l.post_id == post_id)) [
  | inl e ↦ rw (e, is_in-tags_of post_id tag_id links) refl
  | inr e ↦ rw (e, is_in-tags_of post_id tag_id links) refl
]

abbrev is_dropped : ℕ → List ℕ → PostTag → Bool
is_dropped post_id tag_ids l = l.post_id == post_id && not (is_in l.tag_id tag_ids)

-- what the DELETE leaves of a link
any-dropped :
    (post_id other tag_id : ℕ) (tag_ids : List ℕ) (links : List PostTag)
    → any (is_link other tag_id) (delete (is_dropped post_id tag_ids) links)
      ≡ (any (is_link other tag_id) links && (not (other == post_id) || is_in tag_id tag_ids))
any-dropped post_id other tag_id tag_ids [] = refl
any-dropped post_id other tag_id tag_ids (l ∷ links) =
    let rest = any-dropped post_id other tag_id tag_ids links in
    elim (Bool-cases (is_link other tag_id l)) [
      | inr e ↦ ground (arith, e, rest)
      | inl e ↦
          let post : l.post_id ≡ other = ground (arith, e) in
          let tag : l.tag_id ≡ tag_id = ground (arith, e) in
          let dropped : is_dropped post_id tag_ids l
              ≡ (other == post_id && not (is_in tag_id tag_ids)) =
            rw (post, tag) refl in
          ground (arith, e, dropped, rest)
    ]

-- what the INSERT adds
any-added :
    (post_id other tag_id : ℕ) (to_add : List ℕ)
    → any (is_link other tag_id) (map (λ n. record { post_id = post_id; tag_id = n }) to_add)
      ≡ (other == post_id && is_in tag_id to_add)
any-added post_id other tag_id [] = ground arith
any-added post_id other tag_id (n ∷ to_add) = ground (arith, any-added post_id other tag_id to_add)

is_in-select :
    (n : ℕ) (existing ns : List ℕ)
    → is_in n (select (λ m. not (is_in m existing)) ns) ≡ (is_in n ns && not (is_in n existing))
is_in-select n existing [] = refl
is_in-select n existing (m ∷ ns) =
    let rest = is_in-select n existing ns in
    elim (Bool-cases (m == n)) [
      | inr e ↦ ground (arith, e, rest)
      | inl e ↦
          let equal : m ≡ n = ground (arith, e) in
          let same : is_in m existing ≡ is_in n existing = rw equal refl in
          ground (arith, e, same, rest)
    ]

kept_or_added :
    (same linked linked' wanted : Bool)
    → (same ≡ true → linked ≡ linked')
    → ((linked && (not same || wanted)) || (same && (wanted && not linked')))
      ≡ (if same then wanted else linked)
kept_or_added true true linked' wanted h = rw (sym (h refl)) (ground arith)
kept_or_added true false linked' wanted h = rw (sym (h refl)) (ground arith)
kept_or_added false linked linked' wanted h = ground arith

all_known-wanted :
    (tags : List Tag) (ns wanted : List ℕ)
    → ((n : ℕ) → is_in n ns ≡ true → is_in n wanted ≡ true)
    → ((n : ℕ) → is_in n wanted ≡ true → any (λ t. t.id == n) tags ≡ true)
    → all_known tags ns ≡ true
all_known-wanted tags [] wanted within known = refl
all_known-wanted tags (n ∷ ns) wanted within known =
    let here : is_in n (n ∷ ns) ≡ true = ground (arith, ==_refl n) in
    rw (known n (within n here))
      (all_known-wanted tags ns wanted (λ m h. within m (ground (arith, h))) known)

missing_tags-wanted :
    (post_id n : ℕ) (tag_ids : List ℕ) (db : Db)
    → is_in n (missing_tags post_id tag_ids db) ≡ true
    → is_in n tag_ids ≡ true
missing_tags-wanted post_id n tag_ids db h =
    let selected = is_in-select n (tags_of post_id db.post_tags) (distinct tag_ids) in
    let set = is_in-distinct n tag_ids in ground (arith, selected, set, h)

takes_links-known :
    (post_id : ℕ) (ns : List ℕ) (db : Db)
    → any (has_post_id post_id) db.posts ≡ true
    → all_known db.tags ns ≡ true
    → takes_links post_id ns db ≡ true
takes_links-known post_id [] db post known = refl
takes_links-known post_id (n ∷ ns) db post known = rw (post, known) refl

-- When the post and all the tags that are asked for exist, the replacement returns, the post then has
-- exactly these tags, as a set, and every other post has the tags that it had.
pub replace_post_tags-links :
    (post_id other tag_id : ℕ) (tag_ids : List ℕ) (s : State)
    → any (has_post_id post_id) s.db.posts ≡ true
    → ((n : ℕ) → is_in n tag_ids ≡ true → any (λ t. t.id == n) s.db.tags ≡ true)
    → let (result, s') = replace_post_tags post_id tag_ids s in
      (result ≡ ok tt)
      × (any (is_link other tag_id) s'.db.post_tags ≡ (
          if other == post_id
          then is_in tag_id tag_ids
          else any (is_link other tag_id) s.db.post_tags))
unfolding replace_post_tags
replace_post_tags-links post_id other tag_id tag_ids s post known =
    let links = s.db.post_tags in
    let existing = tags_of post_id links in
    let to_add = missing_tags post_id tag_ids s.db in
    let taken = takes_links-known post_id to_add s.db post (
      all_known-wanted s.db.tags to_add tag_ids
        (λ n h. missing_tags-wanted post_id n tag_ids s.db h) known) in
    let kept = delete (is_dropped post_id tag_ids) links in
    let new : List PostTag = map (λ n. record { post_id = post_id; tag_id = n }) to_add in
    let split = any-append (is_link other tag_id) kept new in
    let left = any-dropped post_id other tag_id tag_ids links in
    let added = any-added post_id other tag_id to_add in
    let selected = is_in-select tag_id existing (distinct tag_ids) in
    let set = is_in-distinct tag_id tag_ids in
    let stored = is_in-tags_of post_id tag_id links in
    let linked : any (is_link other tag_id) (kept ++ new)
        ≡ (if other == post_id then is_in tag_id tag_ids else any (is_link other tag_id) links) =
      split
      ∙ rw (left, added, selected, set, stored)
          (kept_or_added (other == post_id) (any (is_link other tag_id) links)
            (any (is_link post_id tag_id) links) (is_in tag_id tag_ids)
            (λ e. let equal : other ≡ post_id = ground (arith, e) in rw equal refl)) in
    rw taken (refl, linked)

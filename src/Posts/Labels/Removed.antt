-- ===== src/Posts/Labels/Removed.antt =====
-- A tag that was deleted.
use fastapi_base.Prelude.{
  ℕ, ◌≡◌, refl, ◌==◌, false, ◌&&◌, none, some, List, [], ◌∷◌, any, delete, arith, ok, Option-cases,
  Bool-cases, inl, inr, first, first_satisfies, or_raise-state,
}
use fastapi_base.Posts.Model.{tag_not_found, Tag, PostTag, State}
use fastapi_base.Posts.Repository.Tags.{is_link}
use fastapi_base.Posts.Labels.{find_tag, has_tag_id, delete_tag_row, find_tag_or_raise, delete_tag}

no_links :
    (tag_id post_id : ℕ) (links : List PostTag)
    → any (is_link post_id tag_id) (delete (λ l. l.tag_id == tag_id) links) ≡ false
no_links tag_id post_id [] = refl
no_links tag_id post_id (l ∷ links) = ground (arith, no_links tag_id post_id links)

first-deleted :
    (workspace_id tag_id : ℕ) (tags : List Tag)
    → first
        (λ t. t.id == tag_id && t.workspace_id == workspace_id)
        (delete (has_tag_id tag_id) tags)
      ≡ none
first-deleted workspace_id tag_id [] = refl
first-deleted workspace_id tag_id (t ∷ tags) = elim (Bool-cases (t.id == tag_id)) [
  | inl e ↦ rw e (first-deleted workspace_id tag_id tags)
  | inr e ↦ rw (e, e) (first-deleted workspace_id tag_id tags)
]

id_of :
    (workspace_id tag_id : ℕ) (tags : List Tag) {tag : Tag}
    → first (λ t. t.id == tag_id && t.workspace_id == workspace_id) tags ≡ some tag
    → tag.id ≡ tag_id
id_of workspace_id tag_id tags {tag} e =
    let found = first_satisfies (λ t. t.id == tag_id && t.workspace_id == workspace_id) tags e in
    ground arith

-- A deletion that returns leaves neither the tag nor a link of any post to it.
pub delete_tag-gone :
    (workspace_id tag_id post_id : ℕ) (s : State) {tag : Tag}
    → (delete_tag workspace_id tag_id s).0 ≡ ok tag
    → let db = (delete_tag workspace_id tag_id s).1.db in
      (find_tag workspace_id tag_id db ≡ none) × (any (is_link post_id tag_id) db.post_tags ≡ false)
unfolding delete_tag find_tag_or_raise delete_tag_row find_tag
delete_tag-gone workspace_id tag_id post_id s h =
    elim (Option-cases (find_tag workspace_id tag_id s.db)) [
      | inl e ↦ cc (rw e at h)
      | inr (tag, e) ↦
          let same = id_of workspace_id tag_id s.db.tags e in
          rw (e, or_raise-state (first (has_tag_id tag.id) s.db.tags) tag_not_found, same)
            (first-deleted workspace_id tag_id s.db.tags, no_links tag_id post_id s.db.post_tags)
    ]

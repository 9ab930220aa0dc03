-- ===== src/Posts/Writer/Body.antt =====
-- What a write of a post's body leaves.
use fastapi_base.Prelude.{
  ℕ, ◌≡◌, refl, ◌==◌, ==_refl, true, some, List, [], ◌∷◌, ◌++◌, any, first, update, first-none-any,
  first-append_new, first-update_kept, Text, ok, Option-cases, inl, inr,
}
use fastapi_base.Posts.Model.{PostContent, State}
use fastapi_base.Posts.Repository.{
  is_content_of, has_post_id, find_content, add_content, update_content, on_db,
}
use fastapi_base.Posts.Writer.{write_body, with_body, new_content}
use fastapi_base.Tiptap.Extract.{Node}

abbrev pub with_contents : List PostContent → State → State
with_contents contents = on_db (λ db. record db { contents = contents })

-- the body that a content row holds
abbrev pub Holds : Node → Text → Text → PostContent → Type 0
Holds doc html text c = (c.content_json ≡ doc) × (c.content_html ≡ html) × (c.content_text ≡ text)

pub write_body-Holds :
    (content_id post_id : ℕ) (doc : Node) (html text : Text) (s : State)
    → any (has_post_id post_id) s.db.posts ≡ true
    → (contents : List PostContent) × (write_body content_id post_id doc html text
          (find_content post_id s.db)
          s
        ≡ (ok tt, with_contents contents s))
      × (c : PostContent) × (first (is_content_of post_id) contents ≡ some c)
      × Holds doc html text c
unfolding find_content add_content update_content
write_body-Holds content_id post_id doc html text s post =
    let p = is_content_of post_id in
    let old = s.db.contents in
    elim (Option-cases (first (is_content_of post_id) s.db.contents)) [
      | inl e ↦
          let row = new_content content_id post_id doc html text in
          let free = first-none-any p old e in
          let found = first-append_new p old row e (==_refl post_id) in
          (old ++ row ∷ [], rw (e, free, post) refl, row, found, (refl, refl, refl))
      | inr (c, e) ↦
          let f = with_body doc html text in
          let found = first-update_kept p (λ x. x.id == c.id) f old c (λ y. refl) e in
          let self : (c.id == c.id) ≡ true = ==_refl c.id in
          (
            update (λ x. x.id == c.id) f old,
            rw e refl,
            with_body doc html text c,
            rw self at found,
            (refl, refl, refl),
          )
    ]

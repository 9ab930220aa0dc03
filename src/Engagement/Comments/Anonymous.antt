-- ===== src/Engagement/Comments/Anonymous.antt =====
-- An anonymous comment waits for a moderator: create_anonymous shows it to no reader.
use fastapi_base.Prelude.{
  ℕ, ◌≡◌, refl, Bool, false, String, Option, none, some, List, [], ◌∷◌, ◌++◌, arith, ok, Bool-cases,
  inl, inr, bind-ok, Keeps, keeps_rules, select, select-append, count, count-append, map,
}
use mathlib.Core.List.{append-nil}
use fastapi_base.Engagement.Model.{Text, Post, PostComment, Db, satisfies_checks}
use fastapi_base.Engagement.Triggers.{
  contributes, after_insert, execute_insert, trg_post_comments_count_fn,
}
use fastapi_base.Engagement.Repository.Lists.{
  is_top_level_approved, list_top_level_approved, list_replies_approved,
}
use fastapi_base.Engagement.Repository.Comments.{is_live_reply_of}
use fastapi_base.Engagement.Comments.Responses.{PostCommentResponse}
use fastapi_base.Engagement.Comments.Create.{
  Fresh, Workspace, AnonymousRequest, anonymous_row, create_anonymous, load_open_post,
}

load_open_post-database :
    (workspace_id post_id : ℕ) (db : Db) → (load_open_post workspace_id post_id db).1 ≡ db
unfolding load_open_post
load_open_post-database workspace_id post_id db =
    let keeps : Keeps (λ d. d ≡ db) (load_open_post workspace_id post_id) =
      search keeps_rules depth 14 in
    keeps.at db refl

-- A row that passes no test of a query changes none of its answers.
select_hidden :
    (p : PostComment → Bool) (cs : List PostComment) (c : PostComment)
    → p c ≡ false
    → select p (cs ++ c ∷ []) ≡ select p cs
select_hidden p cs c h = rw (select-append p cs (c ∷ []), h) (append-nil (select p cs))

count_hidden :
    (p : PostComment → Bool) (cs : List PostComment) (c : PostComment)
    → p c ≡ false
    → count p (cs ++ c ∷ []) ≡ count p cs
count_hidden p cs c h = ground (arith, h, count-append p cs (c ∷ []))

same_posts :
    (c : PostComment) (posts : List Post)
    → contributes c ≡ false
    → map (trg_post_comments_count_fn none (some c)) posts ≡ posts
unfolding trg_post_comments_count_fn
same_posts c [] h = refl
same_posts c (p ∷ posts) h = rw (h, same_posts c posts h) refl

-- A row that does not contribute is not seen.
pending_hidden :
    (c : PostComment) (db : Db)
    → contributes c ≡ false
    → (parent limit offset : ℕ)
    → (list_top_level_approved parent limit offset (after_insert c db)
        ≡ list_top_level_approved parent limit offset db)
      × (list_replies_approved parent limit offset (after_insert c db)
          ≡ list_replies_approved parent limit offset db)
      × ((after_insert c db).posts ≡ db.posts)
unfolding after_insert list_top_level_approved list_replies_approved
pending_hidden c db h parent limit offset =
    let top : is_top_level_approved parent c ≡ false = ground (arith, h) in
    let reply : is_live_reply_of parent c ≡ false = ground (arith, h) in
    (
      rw
          (
            select_hidden (is_top_level_approved parent) db.comments c top,
            count_hidden (is_top_level_approved parent) db.comments c top,
          )
          refl,
      rw
          (
            select_hidden (is_live_reply_of parent) db.comments c reply,
            count_hidden (is_live_reply_of parent) db.comments c reply,
          )
          refl,
      same_posts c db.posts h,
    )

-- An anonymous comment that was accepted appears on no page of comments or of replies, is counted in no
-- total, and changes no row of posts.
pub create_anonymous-hidden :
    (clean : Text → Text) (ip_address : String → Option String) (fresh : Fresh)
    (workspace : Workspace) (post_id : ℕ) (request : AnonymousRequest) (source_ip : Option String)
    (db : Db) {r : PostCommentResponse}
    → (create_anonymous clean ip_address fresh workspace post_id request source_ip db).0 ≡ ok r
    → (parent limit offset : ℕ)
    → let db' =
        (create_anonymous clean ip_address fresh workspace post_id request source_ip db).1 in
      (list_top_level_approved parent limit offset db'
        ≡ list_top_level_approved parent limit offset db)
      × (list_replies_approved parent limit offset db'
          ≡ list_replies_approved parent limit offset db)
      × (db'.posts ≡ db.posts)
unfolding create_anonymous execute_insert
create_anonymous-hidden clean ip_address fresh workspace post_id request source_ip db h parent limit
      offset =
    elim (Bool-cases workspace.allow_anonymous_comments) [
      | inr a ↦ cc (rw a at h)
      | inl a ↦
          let (post, loaded) = bind-ok (load_open_post workspace.id post_id) _ db (rw a at h) in
          let state = load_open_post-database workspace.id post_id db in
          let row = anonymous_row clean ip_address fresh post none request source_ip in
          elim (Bool-cases (satisfies_checks row)) [
            | inr c ↦ cc (rw (a, loaded, state, c) at h)
            | inl c ↦ rw (a, loaded, state, c) (pending_hidden row db refl parent limit offset)
          ]
    ]

-- ===== src/Engagement/Comments/Pages.antt =====
-- What a page of comments holds (list_top_level_approved and list_replies_approved).
use fastapi_base.Prelude.{
  ◌-◌, ◌==◌, ◌&&◌, ◌∙◌, refl, Option, none, some, is_none, leb, count, count_ext,
  count-eq-length-select, length-take_min, length-drop, length-order_by, All-imp, if◌then◌else◌, ℕ,
  zero, suc, ◌≤◌, ◌≡◌, Bool, true, false, List, [], ◌∷◌, arith, All, select, take, drop, length,
  length-take, order_by, IsSorted, order_by-IsSorted, All-order_by, All-take, All-drop, Bool-cases,
  inl, inr,
}
use fastapi_base.Engagement.Model.{PostComment, CommentState, same_state, Db}
use fastapi_base.Engagement.Repository.Comments.{is_live_reply_of}
use fastapi_base.Engagement.Repository.Lists.{
  page, newest_first, oldest_first, is_top_level_approved, list_top_level_approved,
  list_replies_approved,
}

select_satisfies :
    (p : PostComment → Bool) (cs : List PostComment) → All (λ c. p c ≡ true) (select p cs)
select_satisfies p [] = tt
select_satisfies p (c ∷ cs) = elim (Bool-cases (p c)) [
  | inl e ↦ rw e (e, select_satisfies p cs)
  | inr e ↦ rw e (select_satisfies p cs)
]

module _ (le : PostComment → PostComment → Bool) where
  drop-IsSorted : (n : ℕ) (cs : List PostComment) → IsSorted le cs → IsSorted le (drop n cs)
  drop-IsSorted zero cs h = h
  drop-IsSorted (suc n) [] h = tt
  drop-IsSorted (suc n) (c ∷ cs) h = drop-IsSorted n cs h.1

  take-IsSorted : (n : ℕ) (cs : List PostComment) → IsSorted le cs → IsSorted le (take n cs)
  take-IsSorted zero cs h = tt
  take-IsSorted (suc n) [] h = tt
  take-IsSorted (suc n) (c ∷ cs) h =
      (All-take (λ d. le c d ≡ true) n cs h.0, take-IsSorted n cs h.1)

-- A page that the client may rely on: no longer than asked for, in order, and of the right rows.
pub record IsPage (limit : ℕ) (le : PostComment → PostComment → Bool) (p : PostComment → Bool)
    (rows : List PostComment) : Type 0 where
  pub bounded : length rows ≤ limit
  pub sorted : IsSorted le rows
  pub chosen : All (λ c. p c ≡ true) rows

page-IsPage :
    (limit offset : ℕ) (le : PostComment → PostComment → Bool) (p : PostComment → Bool)
    (cs : List PostComment)
    → ((x y : PostComment) → le x y ≡ false → le y x ≡ true)
    → ((x y z : PostComment) → le x y ≡ true → le y z ≡ true → le x z ≡ true)
    → IsPage limit le p (page limit offset (order_by le (select p cs)))
page-IsPage limit offset le p cs total trans =
    let rows = order_by le (select p cs) in
    record {
      bounded = length-take limit (drop offset rows);
      sorted =
          take-IsSorted le limit (drop offset rows)
            (drop-IsSorted le offset rows (order_by-IsSorted le total trans (select p cs)));
      chosen =
          All-take _ limit (drop offset rows)
            (All-drop _ offset rows (All-order_by le _ (select p cs) (select_satisfies p cs)));
    }

length-page :
    (limit offset : ℕ) (le : PostComment → PostComment → Bool) (p : PostComment → Bool)
    (cs : List PostComment)
    → let left = count p cs - offset in
      length (page limit offset (order_by le (select p cs)))
      ≡ (if leb limit left then limit else left)
length-page limit offset le p cs =
    let rows = order_by le (select p cs) in
    length-take_min limit (drop offset rows)
    ∙ rw (length-drop offset rows, length-order_by le (select p cs), count-eq-length-select p cs)
        refl

-- What the reader of a post sees of its comments.
pub record IsVisible (post_id : ℕ) (c : PostComment) : Type 0 where
  pub of_post : c.post_id ≡ post_id
  pub approved : c.state ≡ CommentState.approved
  pub undeleted : c.deleted_at ≡ none
  pub no_reply : c.parent_comment_id ≡ none

abbrev pub count_visible : ℕ → List PostComment → ℕ
count_visible post_id = count (λ c.
    c.post_id == post_id
    && same_state c.state CommentState.approved
    && is_none c.deleted_at
    && is_none c.parent_comment_id)

approved_state :
    (state : CommentState)
    → same_state state CommentState.approved ≡ true
    → state ≡ CommentState.approved
approved_state CommentState.pending h = cc
approved_state CommentState.approved h = refl
approved_state CommentState.rejected h = cc

is_none-none : (n : Option ℕ) → is_none n ≡ true → n ≡ none
is_none-none none h = refl
is_none-none (some n) h = cc

is_top_level_approved-IsVisible :
    (post_id : ℕ) (c : PostComment) → is_top_level_approved post_id c ≡ true → IsVisible post_id c
is_top_level_approved-IsVisible post_id c h = record {
  of_post = ground (arith, h);
  approved = approved_state c.state (ground (arith, h));
  undeleted = is_none-none c.deleted_at (ground (arith, h));
  no_reply = is_none-none c.parent_comment_id (ground (arith, h));
}

count-visible :
    (post_id : ℕ) (cs : List PostComment)
    → count (is_top_level_approved post_id) cs ≡ count_visible post_id cs
count-visible post_id cs = count_ext (is_top_level_approved post_id) _ cs (λ c. ground arith)

-- A page of a post's comments holds approved comments of the post that are not deleted and are no
-- replies, none created before one that follows it; it has `limit` of them, or as many as there are after
-- `offset` where these are fewer, and the total is the number of all such comments of the post.
pub list_top_level_approved-IsPage :
    (post_id limit offset : ℕ) (db : Db)
    → let (rows, total) = list_top_level_approved post_id limit offset db in
      let left = count_visible post_id db.comments - offset in
      All (IsVisible post_id) rows
      × IsSorted (λ c d. leb d.created_at c.created_at) rows
      × (length rows ≡ (if leb limit left then limit else left))
      × (total ≡ count_visible post_id db.comments)
unfolding list_top_level_approved
list_top_level_approved-IsPage post_id limit offset db =
    let p = is_top_level_approved post_id in
    let holds =
      page-IsPage limit offset newest_first p db.comments (λ x y h. ground arith)
        (λ x y z h k. ground arith) in
    let rows = page limit offset (order_by newest_first (select p db.comments)) in
    let long = length-page limit offset newest_first p db.comments in
    let all = count-visible post_id db.comments in
    (
      All-imp (λ c. p c ≡ true) (IsVisible post_id) rows (is_top_level_approved-IsVisible post_id)
          holds.chosen,
      holds.sorted,
      rw all at long,
      all,
    )

-- A page of a comment's replies has at most `limit` of them, oldest first, and each is an approved
-- reply to it that is not deleted.
list_replies_approved-IsPage :
    (parent_id limit offset : ℕ) (db : Db)
    → IsPage limit oldest_first
        (is_live_reply_of parent_id)
        (list_replies_approved parent_id limit offset db).0
unfolding list_replies_approved
list_replies_approved-IsPage parent_id limit offset db =
    page-IsPage limit offset oldest_first (is_live_reply_of parent_id) db.comments
      (λ x y h. ground arith) (λ x y z h k. ground arith)

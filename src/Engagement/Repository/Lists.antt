-- ===== src/Engagement/Repository/Lists.antt =====
-- The list and count queries of both comment repositories, and the authors' usernames.
use fastapi_base.Prelude.{
  ℕ, ◌==◌, String, Bool, ◌&&◌, Option, none, some, List, [], ◌∷◌, map, if◌then◌else◌, is_none,
  select, count, take, drop, leb, order_by,
}
use fastapi_base.Engagement.Model.{PostComment, CommentState, same_state, Db}
use fastapi_base.Engagement.Triggers.{contributes}
use fastapi_base.Engagement.Repository.Comments.{is_one_of, is_live_reply_of}

abbrev pub newest_first : PostComment → PostComment → Bool
newest_first c d = leb d.created_at c.created_at

abbrev pub oldest_first : PostComment → PostComment → Bool
oldest_first c d = leb c.created_at d.created_at

abbrev pub page {ℓ} : {A : Type ℓ} → ℕ → ℕ → List A → List A
page limit offset rows = take limit (drop offset rows)

abbrev pub is_top_level_approved : ℕ → PostComment → Bool
is_top_level_approved post_id c =
    c.post_id == post_id && contributes c && is_none c.parent_comment_id

unfoldable pub list_top_level_approved : ℕ → ℕ → ℕ → Db → List PostComment × ℕ
list_top_level_approved post_id limit offset db = (
  page limit offset (order_by newest_first (select (is_top_level_approved post_id) db.comments)),
  count (is_top_level_approved post_id) db.comments,
)

unfoldable pub list_replies_approved : ℕ → ℕ → ℕ → Db → List PostComment × ℕ
list_replies_approved parent_id limit offset db = (
  page limit offset (order_by oldest_first (select (is_live_reply_of parent_id) db.comments)),
  count (is_live_reply_of parent_id) db.comments,
)

-- GROUP BY parent_comment_id: a parent with no live reply has no entry
unfoldable pub count_replies : List ℕ → Db → List (ℕ × ℕ)
count_replies [] db = []
count_replies (i ∷ is) db =
    let rest = count_replies is db in
    let n = count (is_live_reply_of i) db.comments in if n == 0 then rest else (i, n) ∷ rest

unfoldable pub fetch_author_usernames : List ℕ → Db → List (ℕ × String)
fetch_author_usernames user_ids db =
    map (λ u. (u.id, u.username)) (select (λ u. is_one_of user_ids (some u.id)) db.users)

abbrev pub is_pending_in : ℕ → Option ℕ → PostComment → Bool
is_pending_in workspace_id none c =
    c.workspace_id == workspace_id
    && same_state c.state CommentState.pending
    && is_none c.deleted_at
is_pending_in workspace_id (some post_id) c =
    c.workspace_id == workspace_id
    && same_state c.state CommentState.pending
    && is_none c.deleted_at
    && c.post_id == post_id

unfoldable pub list_pending : ℕ → Option ℕ → ℕ → ℕ → Db → List PostComment × ℕ
list_pending workspace_id post_id limit offset db = (
  page limit offset
      (order_by oldest_first (select (is_pending_in workspace_id post_id) db.comments)),
  count (is_pending_in workspace_id post_id) db.comments,
)

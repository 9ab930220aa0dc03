-- ===== src/Engagement/Counters/Services.antt =====
-- The cached counters stay exact through any sequence of requests, and a reconcile repairs them.
use fastapi_base.Prelude.{
  ℕ, ◌-◌, ◌*◌, Bool, true, false, refl, String, Option, List, Keeps, Keeps-settled, keeps_rules,
  Result, ok, err,
}
use fastapi_base.Engagement.Model.{Text, CommentState, Db, Error}
use fastapi_base.Engagement.Repository.Comments.{edited, update_body, tombstone, tombstoned}
use fastapi_base.Engagement.Repository.Moderation.{
  transition_state, transitioned, mark_moderator_deleted, moderator_deleted, delete_stale_pending,
}
use fastapi_base.Engagement.Comments.Create.{
  create_authenticated, create_anonymous, create_reply_authenticated, create_reply_anonymous,
}
use fastapi_base.Engagement.Comments.Own.{edit_own, delete_own, remove_or_tombstone}
use fastapi_base.Engagement.Moderation.{
  approve, reject, moderator_delete, reconcile_counters, sweep_pending_comments_once,
}
use fastapi_base.Engagement.Likes.{like, unlike}
use fastapi_base.Engagement.Requests.{Env, Request, handle, serve, serve_induction}
use fastapi_base.Engagement.Counters.Operations.{
  IsConsistent, execute_insert-Keeps, update-Keeps, hard_delete-Keeps, delete_cascade-Keeps,
  add_idempotent-Keeps, remove_like-Keeps, reconcile-Keeps,
}

update_body-Keeps :
    (comment_id : ℕ) (body : Text) (now : ℕ) → Keeps IsConsistent (update_body comment_id body now)
unfolding update_body
update_body-Keeps comment_id body now = update-Keeps comment_id (edited body now) (λ c. refl)

tombstone-Keeps : (comment_id now : ℕ) → Keeps IsConsistent (tombstone comment_id now)
unfolding tombstone
tombstone-Keeps comment_id now = update-Keeps comment_id (tombstoned now) (λ c. refl)

transition_state-Keeps :
    (comment_id : ℕ) (state : CommentState) (moderator now : ℕ) (reason : Option String)
    → Keeps IsConsistent (transition_state comment_id state moderator now reason)
unfolding transition_state
transition_state-Keeps comment_id state moderator now reason =
    update-Keeps comment_id (transitioned state moderator now reason) (λ c. refl)

mark_moderator_deleted-Keeps :
    (comment_id moderator now : ℕ) (reason : Option String)
    → Keeps IsConsistent (mark_moderator_deleted comment_id moderator now reason)
unfolding mark_moderator_deleted
mark_moderator_deleted-Keeps comment_id moderator now reason =
    update-Keeps comment_id (moderator_deleted moderator now reason) (λ c. refl)

remove_or_tombstone-Keeps :
    (b : Bool) (now comment_id : ℕ) → Keeps IsConsistent (remove_or_tombstone b now comment_id)
remove_or_tombstone-Keeps true now comment_id = search (keeps_rules, tombstone-Keeps)
remove_or_tombstone-Keeps false now comment_id = hard_delete-Keeps comment_id

delete_stale_pending-Keeps :
    (cutoff limit : ℕ) → Keeps IsConsistent (delete_stale_pending cutoff limit)
unfolding delete_stale_pending
delete_stale_pending-Keeps cutoff limit = search (keeps_rules, delete_cascade-Keeps)

ruleset service_rules = (
  keeps_rules, execute_insert-Keeps, update_body-Keeps, transition_state-Keeps,
  mark_moderator_deleted-Keeps, remove_or_tombstone-Keeps, add_idempotent-Keeps, remove_like-Keeps,
)

sweep-Keeps : (now ttl limit : ℕ) → Keeps IsConsistent (sweep_pending_comments_once now ttl limit)
unfolding sweep_pending_comments_once
sweep-Keeps now ttl limit = record {
  at = λ db h.
      let (r, db') = delete_stale_pending (now - ttl * 1000000) limit db in
      go r db' db h ((delete_stale_pending-Keeps (now - ttl * 1000000) limit).at db h);
}
  where
    go :
        (r : Result Error ℕ) (db' db : Db)
        → IsConsistent db
        → IsConsistent db'
        → IsConsistent (fastapi_base.Engagement.Moderation.or_none_purged db (r, db')).1
    go (ok n) db' db h h' = h'
    go (err e) db' db h h' = h

handle-IsConsistent :
    (env : Env) (r : Request) (db : Db) → IsConsistent db → IsConsistent (handle env r db)
unfolding handle create_authenticated create_anonymous create_reply_authenticated
    create_reply_anonymous edit_own delete_own approve reject moderator_delete like unlike
handle-IsConsistent env (Request.submit_comment fresh w p u body) =
    Keeps-settled IsConsistent (create_authenticated env.clean fresh w p u body)
      (search service_rules depth 14)
handle-IsConsistent env (Request.submit_anonymous fresh w p request ip) =
    Keeps-settled IsConsistent (create_anonymous env.clean env.ip_address fresh w p request ip)
      (search service_rules depth 14)
handle-IsConsistent env (Request.submit_reply fresh w p u body) =
    Keeps-settled IsConsistent (create_reply_authenticated env.clean fresh w p u body)
      (search service_rules depth 20)
handle-IsConsistent env (Request.submit_anonymous_reply fresh w p request ip) =
    Keeps-settled IsConsistent
      (create_reply_anonymous env.clean env.ip_address fresh w p request ip)
      (search service_rules depth 20)
handle-IsConsistent env (Request.edit_comment now c u body) =
    Keeps-settled IsConsistent
      (edit_own env.post_comment_edit_window_seconds env.clean now c u body)
      (search service_rules depth 14)
handle-IsConsistent env (Request.delete_comment now c u) =
    Keeps-settled IsConsistent (delete_own now c u) (search service_rules depth 14)
handle-IsConsistent env (Request.approve_comment now c u reason) =
    Keeps-settled IsConsistent (approve now c u reason) (search service_rules depth 14)
handle-IsConsistent env (Request.reject_comment now c u reason) =
    Keeps-settled IsConsistent (reject now c u reason) (search service_rules depth 14)
handle-IsConsistent env (Request.remove_comment now c u reason) =
    Keeps-settled IsConsistent (moderator_delete env.is_moderator now c u reason)
      (search service_rules depth 14)
handle-IsConsistent env (Request.reconcile p) =
    Keeps-settled IsConsistent (reconcile_counters p) (reconcile-Keeps p)
handle-IsConsistent env (Request.sweep_pending now ttl limit) =
    Keeps-settled IsConsistent (sweep_pending_comments_once now ttl limit)
      (sweep-Keeps now ttl limit)
handle-IsConsistent env (Request.like_post now w p u) =
    Keeps-settled IsConsistent (like now w p u) (search service_rules depth 14)
handle-IsConsistent env (Request.unlike_post w p u) =
    Keeps-settled IsConsistent (unlike w p u) (search service_rules depth 14)

-- After any sequence of likes, comments, moderator actions, reconciles and sweeper ticks, each post's
-- cached `like_count` is the number of its likes, its `comment_count` is the number of its approved
-- comments that are not deleted, and no user likes a post twice, if this was so at the start.
pub serve-IsConsistent :
    (env : Env) (db : Db) (requests : List Request)
    → IsConsistent db
    → IsConsistent (serve env db requests)
serve-IsConsistent env = serve_induction IsConsistent env (handle-IsConsistent env)

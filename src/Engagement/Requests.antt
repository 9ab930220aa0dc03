-- ===== src/Engagement/Requests.antt =====
-- The requests that write likes and comments, and the sweeper's tick, as one type: what each leaves
-- in the database after its transaction has committed or has been rolled back.
use fastapi_base.Prelude.{ℕ, Bool, String, Option, List, [], ◌∷◌, settled}
use fastapi_base.Engagement.Model.{Text, Db}
use fastapi_base.Engagement.Comments.Create.{
  Fresh, Workspace, AnonymousRequest, create_authenticated, create_anonymous,
  create_reply_authenticated, create_reply_anonymous,
}
use fastapi_base.Engagement.Comments.Own.{edit_own, delete_own}
use fastapi_base.Engagement.Moderation.{
  approve, reject, moderator_delete, reconcile_counters, sweep_pending_comments_once,
}
use fastapi_base.Engagement.Likes.{like, unlike}

-- What the program gets from outside: nh3, the ipaddress module, a setting and the access check.
pub record Env : Type 0 where
  pub clean : Text → Text
  pub ip_address : String → Option String
  pub post_comment_edit_window_seconds : ℕ
  pub is_moderator : ℕ → Bool

pub data Request : Type 0 where
  submit_comment : Fresh → ℕ → ℕ → ℕ → Text → Request
  submit_anonymous : Fresh → Workspace → ℕ → AnonymousRequest → Option String → Request
  submit_reply : Fresh → ℕ → ℕ → ℕ → Text → Request
  submit_anonymous_reply : Fresh → Workspace → ℕ → AnonymousRequest → Option String → Request
  edit_comment : ℕ → ℕ → ℕ → Text → Request
  delete_comment : ℕ → ℕ → ℕ → Request
  approve_comment : ℕ → ℕ → ℕ → Option String → Request
  reject_comment : ℕ → ℕ → ℕ → Option String → Request
  remove_comment : ℕ → ℕ → ℕ → Option String → Request
  reconcile : ℕ → Request
  sweep_pending : ℕ → ℕ → ℕ → Request
  like_post : ℕ → ℕ → ℕ → ℕ → Request
  unlike_post : ℕ → ℕ → ℕ → Request

unfoldable pub handle : Env → Request → Db → Db
handle env (Request.submit_comment fresh workspace_id post_id user_id body) db =
    settled db (create_authenticated env.clean fresh workspace_id post_id user_id body db)
handle env (Request.submit_anonymous fresh workspace post_id request ip) db =
    settled db (create_anonymous env.clean env.ip_address fresh workspace post_id request ip db)
handle env (Request.submit_reply fresh workspace_id parent_id user_id body) db =
    settled db (create_reply_authenticated env.clean fresh workspace_id parent_id user_id body db)
handle env (Request.submit_anonymous_reply fresh workspace parent_id request ip) db =
    settled db
      (create_reply_anonymous env.clean env.ip_address fresh workspace parent_id request ip db)
handle env (Request.edit_comment now comment_id user_id body) db =
    settled db
      (edit_own env.post_comment_edit_window_seconds env.clean now comment_id user_id body db)
handle env (Request.delete_comment now comment_id user_id) db =
    settled db (delete_own now comment_id user_id db)
handle env (Request.approve_comment now comment_id user_id reason) db =
    settled db (approve now comment_id user_id reason db)
handle env (Request.reject_comment now comment_id user_id reason) db =
    settled db (reject now comment_id user_id reason db)
handle env (Request.remove_comment now comment_id user_id reason) db =
    settled db (moderator_delete env.is_moderator now comment_id user_id reason db)
handle env (Request.reconcile post_id) db = settled db (reconcile_counters post_id db)
handle env (Request.sweep_pending now pending_ttl_seconds batch_size) db =
    settled db (sweep_pending_comments_once now pending_ttl_seconds batch_size db)
handle env (Request.like_post now workspace_id post_id user_id) db =
    settled db (like now workspace_id post_id user_id db)
handle env (Request.unlike_post workspace_id post_id user_id) db =
    settled db (unlike workspace_id post_id user_id db)

pub serve : Env → Db → List Request → Db
serve env db [] = db
serve env db (r ∷ rest) = serve env (handle env r db) rest

-- An invariant of every request holds after any sequence of them.
pub serve_induction :
    (P : Db → Type 0) (env : Env)
    → ((r : Request) (db : Db) → P db → P (handle env r db))
    → (db : Db) (requests : List Request) → P db
    → P (serve env db requests)
unfolding serve
serve_induction P env step db [] h = h
serve_induction P env step db (r ∷ rest) h =
    serve_induction P env step (handle env r db) rest (step r db h)

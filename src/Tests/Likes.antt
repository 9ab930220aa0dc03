-- ===== src/Tests/Likes.antt =====
-- A post with one like and one comment, and requests on it.
use fastapi_base.Prelude.{◌≡◌, refl, false, none, some, [], ◌∷◌, ok, arith, All}
use fastapi_base.Engagement.Model.{Post, PostLike, PostComment, PostStatus, CommentState, Db}
use fastapi_base.Engagement.Repository.Likes.{exists_for_user}
use fastapi_base.Engagement.Repository.Posts.{find_post}
use fastapi_base.Engagement.Likes.{like, unlike}
use fastapi_base.Engagement.Likes.Laws.{unlike_after_like, like_twice}
use fastapi_base.Engagement.Moderation.{reconcile_counters, ReconcileResponse}
use fastapi_base.Engagement.Counters.Statements.{IsExact}
use fastapi_base.Engagement.Requests.{Env, Request, serve}
use fastapi_base.Engagement.Counters.Operations.{IsConsistent}
use fastapi_base.Engagement.Counters.Services.{serve-IsConsistent}
use fastapi_base.Engagement.Counters.Reconcile.{reconcile_repairs}

abbrev pub a_post : Post
a_post = record {
  id = 1;
  workspace_id = 7;
  author_id = 5;
  status = PostStatus.published;
  deleted_at = none;
  like_count = 1;
  comment_count = 1;
}

abbrev a_like : PostLike
a_like = record { post_id = 1; user_id = 4; workspace_id = 7; created_at = 100 }

abbrev pub a_comment : PostComment
a_comment = record {
  id = 10;
  post_id = 1;
  workspace_id = 7;
  parent_comment_id = none;
  author_user_id = some 4;
  author_display_name = none;
  author_email = none;
  author_ip = none;
  body = 104 ∷ 105 ∷ [];
  state = CommentState.approved;
  is_tombstoned = false;
  moderation_reason = none;
  moderated_by_user_id = none;
  moderated_at = none;
  edited_at = none;
  deleted_at = none;
  created_at = 1000000;
}

abbrev pub a_blog : Db
a_blog = record {
  posts = a_post ∷ [];
  likes = a_like ∷ [];
  comments = a_comment ∷ [];
  users = record { id = 4; username = "ann" } ∷ [];
}

abbrev an_env : Env
an_env = record {
  clean = λ body. body;
  ip_address = λ ip. some ip;
  post_comment_edit_window_seconds = 900;
  is_moderator = λ user_id. false;
}

a_blog-IsConsistent : IsConsistent a_blog
a_blog-IsConsistent = record {
  exact = ((refl, refl), tt);
  unique = λ post_id user_id. ground arith;
}

serve-IsConsistent_example : IsConsistent (
    serve an_env a_blog (
      Request.like_post 200 7 1 6
      ∷ Request.delete_comment 300 10 4
      ∷ Request.unlike_post 7 1 4
      ∷ []))
serve-IsConsistent_example =
    serve-IsConsistent an_env a_blog
      (Request.like_post 200 7 1 6
        ∷ Request.delete_comment 300 10 4
        ∷ Request.unlike_post 7 1 4
        ∷ [])
      a_blog-IsConsistent

a_post_found : find_post 7 1 a_blog ≡ some a_post
unfolding find_post
a_post_found = refl

not_liked : exists_for_user 1 6 a_blog ≡ false
unfolding exists_for_user
not_liked = refl

like_twice_example : like 201 7 1 6 (like 200 7 1 6 a_blog).1 ≡ like 200 7 1 6 a_blog
like_twice_example = like_twice 200 201 7 1 6 a_blog

unlike_after_like_example : (unlike 7 1 6 (like 200 7 1 6 a_blog).1).1 ≡ a_blog
unlike_after_like_example = unlike_after_like 200 7 1 6 a_blog a_post a_post_found refl not_liked

-- the post with counters that are wrong
abbrev a_drifted_post : Post
a_drifted_post = record a_post { like_count = 40; comment_count = 0 }

abbrev a_drifted_blog : Db
a_drifted_blog = record a_blog { posts = a_drifted_post ∷ [] }

reconcile_repairs_example :
    let db' = (reconcile_counters 1 a_drifted_blog).1 in
    All (λ q. q.id ≡ 1 → IsExact a_drifted_blog.likes a_drifted_blog.comments q) db'.posts
    × (db'.comments ≡ a_drifted_blog.comments)
    × (db'.likes ≡ a_drifted_blog.likes)
    × ((r : ReconcileResponse) × ((reconcile_counters 1 db').0 ≡ ok r)
        × (r.drift_corrected ≡ false))
reconcile_repairs_example = reconcile_repairs 1 a_drifted_blog a_drifted_post refl

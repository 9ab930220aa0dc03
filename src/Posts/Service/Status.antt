-- ===== src/Posts/Service/Status.antt =====
-- The life of a post: how publish, unpublish and archive move its status.
use fastapi_base.Prelude.{◌⊎◌, ℕ, ◌≡◌, none, some, List, []}
use fastapi_base.Posts.Model.{Post, PostStatus, PostVersion, Action, State}
use fastapi_base.Posts.Content.{Pipeline}
use fastapi_base.Posts.Autosave.{Fresh, flush_one}
use fastapi_base.Posts.Service.{with_status, archived, publish, unpublish, archive}

-- the requests that change a status
pub data Transition : Type 0 where
  to_published : Fresh → Transition
  to_draft to_archived : Transition

abbrev pub rivals_of : Transition → List (List PostVersion)
rivals_of (to_published fresh) = fresh.rivals
rivals_of to_draft = []
rivals_of to_archived = []

-- the state in which the handler looks the post up: publish flushes the autosave first
abbrev pub looked_up_in : Pipeline → Transition → ℕ → ℕ → State → State
looked_up_in pipeline (to_published fresh) workspace_id post_id s =
    (flush_one pipeline fresh workspace_id post_id s).1
looked_up_in pipeline to_draft workspace_id post_id s = s
looked_up_in pipeline to_archived workspace_id post_id s = s

unfoldable pub move : Pipeline → Transition → ℕ → ℕ → Action Post
move pipeline (to_published fresh) workspace_id post_id =
    publish pipeline fresh workspace_id post_id
move pipeline to_draft workspace_id post_id = unpublish workspace_id post_id
move pipeline to_archived workspace_id post_id = archive workspace_id post_id

abbrev pub moved : Transition → Post → Post
moved (to_published fresh) post = with_status PostStatus.published (some fresh.now) post
moved to_draft post = with_status PostStatus.draft none post
moved to_archived post = archived post

-- the statuses that a request may find
abbrev pub MayMove : Transition → PostStatus → Type 0
MayMove (to_published fresh) status = (status ≡ PostStatus.draft) ⊎ (status ≡ PostStatus.archived)
MayMove to_draft status = status ≡ PostStatus.published
MayMove to_archived status = Unit

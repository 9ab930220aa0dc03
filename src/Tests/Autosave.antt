-- ===== src/Tests/Autosave.antt =====
-- The keys in Redis, the flush and the sweep of a small draft.
use fastapi_base.Prelude.{
  ℕ, ◌+◌, ◌≡◌, refl, ◌==◌, ◌||◌, Bool, true, false, none, some, List, [], ◌∷◌, err, arith,
}
use fastapi_base.Posts.Model.{Post, PostStatus, Db, Redis, State, AutosaveSnapshot, publish_content}
use fastapi_base.Posts.Lease.{current_lease, acquire_or_renew, set_nx, new_lease}
use fastapi_base.Posts.Lease.Exclusion.{System, tick, lead, Reach, start, later, set_at, one_holder}
use fastapi_base.Posts.Lease.Takeover.{takeover}
use fastapi_base.Posts.Sweepers.{new_sweeper, Shared, tick as turn, cancelled}
use fastapi_base.Posts.Sweepers.Handover.{tick-handover}
use fastapi_base.Posts.Store.{get, acquire_flush_lock}
use fastapi_base.Posts.Store.Index.{
  Script, save_script, mark_flushed_script, delete_command, remove_command, IsIndexed, run_scripts,
  end_of, run_scripts-IsIndexed,
}
use fastapi_base.Posts.Content.{Pipeline}
use fastapi_base.Posts.Autosave.{Fresh, get_snapshot, in_session, sweep_once}
use fastapi_base.Posts.Autosave.Starved.{IsStuck, sweep_once_starved}
use fastapi_base.Posts.Store.Marking.{marked}
use fastapi_base.Posts.Service.{publish}
use fastapi_base.Posts.Service.Refused.{publish-loses}
use fastapi_base.Posts.Repository.{find_post}
use fastapi_base.Tiptap.Extract.{
  Node, dict, no_nodes, extract_text, walk, walk_all, chunks, is_block,
}
use fastapi_base.Tiptap.Words.{split, split_from}

-- worker 5 was granted the key at 0, one second ago
abbrev led : System
led = record {
  now = 1;
  key = some (record { token = 5; expires_at = 30 });
  held_until = set_at 5 30 (λ _. 0);
}

led-Reach : Reach 30 led
unfolding acquire_or_renew current_lease
led-Reach = later (later start (lead 5)) tick

abbrev leader : ℕ
leader = 5

one_holder_example : leader ≡ leader
one_holder_example = one_holder 30 led led-Reach leader leader (omega arith) (omega arith)

takeover_example :
    acquire_or_renew (1 + 30) 30 9 (some (record { token = 5; expires_at = 30 }))
    ≡ (true, new_lease (1 + 30) 30 9)
takeover_example = takeover 30 led led-Reach 9

-- a sweep that flushes two posts
abbrev two_posts : ℕ → ℕ × ℕ
two_posts flushed = (2, flushed + 2)

abbrev idle : Shared ℕ
idle = record { key = none; state = 0 }

idle-leads : (turn two_posts 10 30 (new_sweeper 5) idle).0.is_leader ≡ true
unfolding turn acquire_or_renew current_lease
idle-leads = refl

tick-handover_example :
    let (w, shared) = turn two_posts 10 30 (new_sweeper 5) idle in
    acquire_or_renew 14 30 9 (cancelled two_posts 12 true w shared).key ≡ (true, new_lease 14 30 9)
tick-handover_example = tick-handover two_posts 10 12 14 30 9 true (new_sweeper 5) idle idle-leads

abbrev pub a_doc : Node
a_doc = dict (some "doc") none no_nodes

abbrev pub is_blank : ℕ → Bool
is_blank c = c == 32 || c == 10

abbrev pub a_pipeline : Pipeline
a_pipeline = record {
  is_space = is_blank;
  render = λ _. [];
  digest = λ _. 7;
  compress = λ _. 1 ∷ [];
  decompress = λ _. some a_doc;
  strip = λ text. text;
}

abbrev pub a_fresh : Fresh
a_fresh = record { now = 10; token = 3; content_id = 40; rivals = [] }

abbrev a_snapshot : AutosaveSnapshot
a_snapshot = record {
  post_id = 1;
  workspace_id = 2;
  author_id = 4;
  content_json = a_doc;
  content_hash = 7;
  flushed_hash = none;
  word_count = 0;
  updated_at = 9;
  expires_at = 100;
}

abbrev empty_redis : Redis
empty_redis = record { snapshots = λ _. none; dirty = []; locks = λ _. none }

abbrev a_redis : Redis
a_redis = record { snapshots = λ _. some a_snapshot; dirty = 1 ∷ []; locks = λ _. none }

abbrev pub a_draft : Post
a_draft = record {
  id = 1;
  workspace_id = 2;
  author_id = 4;
  category_id = none;
  title = 97 ∷ [];
  slug = 97 ∷ [];
  excerpt = none;
  cover_image_url = none;
  status = PostStatus.draft;
  published_at = none;
  reading_minutes = none;
  word_count = none;
  hero_quote = none;
  meta_title = none;
  meta_description = none;
  content_hash = none;
  deleted_at = none;
  created_at = 0;
}

abbrev pub a_db : Db
a_db = record {
  posts = a_draft ∷ [];
  contents = [];
  versions = [];
  categories = [];
  tags = [];
  post_tags = [];
}

abbrev no_posts : Db
no_posts = record a_db { posts = [] }

-- a save, its flush, and a discard with a mark of the post between its commands
abbrev some_scripts : List (ℕ × Script)
some_scripts =
    (1, save_script a_snapshot)
    ∷ (1, mark_flushed_script 1 7)
    ∷ (1, delete_command 1)
    ∷ (1, mark_flushed_script 1 7)
    ∷ (1, remove_command 1)
    ∷ (1, save_script a_snapshot)
    ∷ []

run_scripts-IsIndexed_example :
    IsIndexed (end_of 0 some_scripts) (run_scripts 0 some_scripts empty_redis)
unfolding get
run_scripts-IsIndexed_example =
    run_scripts-IsIndexed 0 some_scripts empty_redis refl (λ post_id snapshot h. cc)

publish-loses_example :
    let (result, s') =
      in_session false
        (publish a_pipeline a_fresh 2 1)
        (record { in_block = false; begun = a_db; db = a_db; redis = some a_redis }) in
    (result ≡ err publish_content)
    × (s'.db ≡ a_db)
    × (get_snapshot 10 1 s' ≡ some (marked 7 a_snapshot))
unfolding get acquire_flush_lock set_nx current_lease extract_text walk walk_all chunks is_block
    split split_from
publish-loses_example =
    publish-loses a_pipeline a_fresh a_snapshot a_draft false a_db a_db a_redis refl refl refl refl
      refl refl refl refl refl

abbrev without_posts : State
without_posts = record { in_block = false; begun = no_posts; db = no_posts; redis = some a_redis }

member-IsStuck : IsStuck 10 without_posts 1
unfolding get find_post
member-IsStuck = record { snapshot = a_snapshot; found = refl; dirty = refl; gone = refl }

sweep_once_starved_example :
    sweep_once a_pipeline (λ _. a_fresh) 1 without_posts ≡ (0, without_posts)
sweep_once_starved_example =
    sweep_once_starved a_pipeline (λ _. a_fresh) 1 without_posts (omega arith) (omega arith)
      (member-IsStuck, tt)

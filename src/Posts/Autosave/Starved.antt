-- ===== src/Posts/Autosave/Starved.antt =====
-- A sweep that meets posts it can never flush.
use fastapi_base.Prelude.{
  ℕ, ◌+◌, ◌≤◌, zero, suc, ◌≡◌, refl, ap, leb, true, false, none, some, List, [], ◌∷◌, All, All-imp,
  take, length, err, arith,
}
use fastapi_base.Posts.Model.{State, AutosaveSnapshot, post_not_found}
use fastapi_base.Posts.Repository.{find_post}
use fastapi_base.Posts.Content.{Pipeline}
use fastapi_base.Posts.Store.{is_dirty}
use fastapi_base.Posts.Autosave.{
  Fresh, load_post_or_raise, get_snapshot, is_to_flush, flush_dirty, flush_one, end_session,
  in_session, dirty_members, sweep_members, sweep_once,
}

-- A member with a dirty snapshot of a post that the workspace has not, such as one deleted since.
pub record IsStuck (now : ℕ) (s : State) (post_id : ℕ) : Type 0 where
  pub snapshot : AutosaveSnapshot
  pub found : get_snapshot now post_id s ≡ some snapshot
  pub dirty : is_dirty snapshot ≡ true
  pub gone : find_post snapshot.workspace_id post_id s.db ≡ none

abbrev begin : State → State
begin s = record s { begun = s.db }

flush_one_gone :
    (pipeline : Pipeline) (fresh : Fresh) (s : State) (post_id : ℕ) (snapshot : AutosaveSnapshot)
    → get_snapshot fresh.now post_id s ≡ some snapshot
    → is_to_flush snapshot.workspace_id snapshot ≡ true
    → find_post snapshot.workspace_id post_id s.db ≡ none
    → flush_one pipeline fresh snapshot.workspace_id post_id s ≡ (err post_not_found, s)
unfolding flush_one flush_dirty load_post_or_raise
flush_one_gone pipeline fresh s post_id snapshot found to_flush gone =
    rw (flush_one, found, to_flush, gone) refl

flush_one_stuck :
    (pipeline : Pipeline) (fresh : Fresh) (s : State) (post_id : ℕ)
    (stuck : IsStuck fresh.now s post_id)
    → in_session true (flush_one pipeline fresh stuck.snapshot.workspace_id post_id) s
      ≡ (err post_not_found, begin s)
flush_one_stuck pipeline fresh s post_id stuck =
    let to_flush : is_to_flush stuck.snapshot.workspace_id stuck.snapshot ≡ true =
      ground (arith, stuck.dirty) in
    ap (end_session s.in_block) (
      flush_one_gone pipeline fresh (record s { in_block = true; begun = s.db }) post_id
        stuck.snapshot stuck.found to_flush stuck.gone)

-- the member at which a stuck sweep is
abbrev StuckAt : (ℕ → Fresh) → State → ℕ → Type 0
StuckAt fresh s post_id = IsStuck (fresh post_id).now s post_id

stuck_begin :
    (fresh : ℕ → Fresh) (s : State) (post_id : ℕ)
    → StuckAt fresh s post_id
    → StuckAt fresh (begin s) post_id
stuck_begin fresh s post_id h = record {
  snapshot = h.snapshot;
  found = h.found;
  dirty = h.dirty;
  gone = h.gone;
}

sweep_members_stuck :
    (pipeline : Pipeline) (fresh : ℕ → Fresh) (batch_size seen todo : ℕ) (members : List ℕ)
    (s : State)
    → batch_size ≡ seen + suc todo
    → suc todo ≤ length members
    → All (StuckAt fresh s) (take (suc todo) members)
    → sweep_members pipeline fresh batch_size seen 0 members s ≡ (0, begin s)
unfolding sweep_members
sweep_members_stuck pipeline fresh batch_size seen todo [] s full enough stuck =
    ground (arith, enough)
sweep_members_stuck pipeline fresh batch_size seen zero (post_id ∷ members) s full enough stuck =
    let here = stuck.0 in
    let raised = flush_one_stuck pipeline (fresh post_id) s post_id here in
    let last : leb batch_size (seen + 1) ≡ true = ground (arith, full) in
    rw (here.found, raised, here.dirty, last) refl
sweep_members_stuck pipeline fresh batch_size seen (suc todo) (post_id ∷ members) s full enough
      stuck =
    let here = stuck.0 in
    let raised = flush_one_stuck pipeline (fresh post_id) s post_id here in
    let more : leb batch_size (seen + 1) ≡ false = ground (arith, full) in
    let rest =
      sweep_members_stuck pipeline fresh batch_size (seen + 1) todo members (begin s)
        (omega (arith, full)) (omega (arith, enough))
        (All-imp (StuckAt fresh s) (StuckAt fresh (begin s)) (take (suc todo) members)
          (stuck_begin fresh s) stuck.1) in
    rw (here.found, raised, here.dirty, more) rest

-- Where the first members of the dirty set, as many as a sweep looks at, have dirty snapshots of posts
-- that are gone, a sweep flushes nothing, whatever other posts are dirty; and as it leaves the database
-- and Redis as they were, so does every later one.
pub sweep_once_starved :
    (pipeline : Pipeline) (fresh : ℕ → Fresh) (batch_size : ℕ) (s : State)
    → 1 ≤ batch_size
    → batch_size ≤ length (dirty_members s.redis)
    → All (StuckAt fresh s) (take batch_size (dirty_members s.redis))
    → sweep_once pipeline fresh batch_size s ≡ (0, record s { begun = s.db })
unfolding sweep_once
sweep_once_starved pipeline fresh zero s some_batch enough stuck = ground (arith, some_batch)
sweep_once_starved pipeline fresh (suc batch) s some_batch enough stuck =
    sweep_members_stuck pipeline fresh (suc batch) 0 batch (dirty_members s.redis) s (omega arith)
      enough stuck

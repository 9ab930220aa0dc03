-- ===== src/Posts/Sweepers.antt =====
-- The loops of the three background tasks: autosave_sweeper (apps/blog/sweepers/_autosave.py),
-- post_version_sweeper (_post_version.py) and post_comment_moderation_sweeper
-- (_comment_moderation.py). They differ in their leader key and in what they sweep; `sweep` is that, on
-- a state of type `S`, with the number that it adds to the count.
pub mod Handover
use fastapi_base.Prelude.{ℕ, ◌+◌, Bool, true, false, Option, none, some, if◌then◌else◌}
use fastapi_base.Posts.Model.{Lease}
use fastapi_base.Posts.Lease.{acquire_or_renew, release}

-- the local variables of the loop
pub record Sweeper : Type 0 where
  pub token : ℕ
  pub is_leader : Bool
  pub tick_count : ℕ
  pub done_count : ℕ

pub record Shared (S : Type 0) : Type 0 where
  pub key : Option Lease
  pub state : S

abbrev pub new_sweeper : ℕ → Sweeper
new_sweeper token = record { token = token; is_leader = false; tick_count = 0; done_count = 0 }

module _ {S : Type 0} (sweep : S → ℕ × S) where
  abbrev pub swept : Sweeper → Option Lease → S → Sweeper × Shared S
  swept w key s =
      let (done, s') = sweep s in
      (
        record w {
          is_leader = true;
          tick_count = w.tick_count + 1;
          done_count = w.done_count + done;
        },
        record { key = key; state = s' },
      )

  -- one turn of `while True`, after the sleep
  unfoldable pub tick : ℕ → ℕ → Sweeper → Shared S → Sweeper × Shared S
  tick now ttl_seconds w shared =
      let (acquired, key) = acquire_or_renew now ttl_seconds w.token shared.key in
      if acquired
      then swept w key shared.state
      else (record w { is_leader = false }, record shared { key = key })

  -- `except asyncio.CancelledError` of the autosave sweeper, which drains once more; `drained` is false
  -- where that last sweep raised, or for the two sweepers that have none
  unfoldable pub cancelled : ℕ → Bool → Sweeper → Shared S → Shared S
  cancelled now drained w shared =
      if w.is_leader
      then record {
        key = release now w.token shared.key;
        state = if drained then (sweep shared.state).1 else shared.state;
      }
      else shared

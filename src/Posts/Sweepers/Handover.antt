-- ===== src/Posts/Sweepers/Handover.antt =====
-- When a worker is shut down.
use fastapi_base.Prelude.{ℕ, ◌+◌, ◌≡◌, Bool, true, some, arith, Bool-cases, inl, inr}
use fastapi_base.Posts.Lease.{current_lease, new_lease, acquire_or_renew, release}
use fastapi_base.Posts.Lease.Exclusion.{acquire_or_renew-granted}
use fastapi_base.Posts.Sweepers.{Sweeper, Shared, tick, cancelled}

-- A key that the releasing worker holds, or held, is free for any other.
release-free :
    (now later ttl_seconds token other until : ℕ)
    → acquire_or_renew later ttl_seconds other
        (release now token (some (record { token = token; expires_at = until })))
      ≡ (true, new_lease later ttl_seconds other)
unfolding acquire_or_renew release current_lease
release-free now later ttl_seconds token other until = ground arith

-- A worker that is shut down as the leader gives the key back: when no other worker takes the key between
-- its last turn and the shutdown, whoever asks next is granted it, without waiting for the time to live
-- to pass.
pub tick-handover :
    {S : Type 0} (sweep : S → ℕ × S) (now stopped later ttl_seconds other : ℕ) (drained : Bool)
    (w : Sweeper) (shared : Shared S)
    → (tick sweep now ttl_seconds w shared).0.is_leader ≡ true
    → let (w', shared') = tick sweep now ttl_seconds w shared in
      acquire_or_renew later ttl_seconds other (cancelled sweep stopped drained w' shared').key
      ≡ (true, new_lease later ttl_seconds other)
unfolding tick cancelled
tick-handover sweep now stopped later ttl_seconds other drained w shared leads =
    elim (Bool-cases (acquire_or_renew now ttl_seconds w.token shared.key).0) [
      | inr e ↦ cc (rw e at leads)
      | inl e ↦
          let granted = acquire_or_renew-granted now ttl_seconds w.token shared.key e in
          rw (e, granted) (release-free stopped later ttl_seconds w.token other (now + ttl_seconds))
    ]

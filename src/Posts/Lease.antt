-- ===== src/Posts/Lease.antt =====
-- The Redis keys with a token and a TTL of apps/blog/store.py: the flush lock of a post and the leader
-- key of each of the three sweepers. A key is gone from its deadline on; `now` is the server's clock, in
-- seconds.
pub mod Exclusion
pub mod Takeover
use fastapi_base.Prelude.{ℕ, ◌+◌, ◌==◌, ltb, Bool, true, false, Option, none, some, if◌then◌else◌}
use fastapi_base.Posts.Model.{Lease}

-- GET of a key with a TTL
unfoldable pub current_lease : ℕ → Option Lease → Option Lease
current_lease now none = none
current_lease now (some lease) = if ltb now lease.expires_at then some lease else none

abbrev pub new_lease : ℕ → ℕ → ℕ → Option Lease
new_lease now ttl_seconds token = some (record { token = token; expires_at = now + ttl_seconds })

-- _LEADER_ACQUIRE_OR_RENEW_SCRIPT: the script's answer, and the key after it
unfoldable pub acquire_or_renew : ℕ → ℕ → ℕ → Option Lease → Bool × Option Lease
acquire_or_renew now ttl_seconds token key = elim (current_lease now key) [
  | none ↦ (true, new_lease now ttl_seconds token)
  | some lease ↦
      if lease.token == token then (true, new_lease now ttl_seconds token) else (false, some lease)
]

-- SET key token NX EX ttl
unfoldable pub set_nx : ℕ → ℕ → ℕ → Option Lease → Bool × Option Lease
set_nx now ttl_seconds token key = elim (current_lease now key) [
  | none ↦ (true, new_lease now ttl_seconds token)
  | some lease ↦ (false, some lease)
]

-- _LOCK_RELEASE_SCRIPT: delete the key where its value is the token
unfoldable pub release : ℕ → ℕ → Option Lease → Option Lease
release now token key = elim (current_lease now key) [
  | none ↦ none
  | some lease ↦ if lease.token == token then none else some lease
]

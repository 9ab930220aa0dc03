-- ===== src/Posts/Lease/Takeover.antt =====
-- How long a worker that stopped can keep the others from the key.
use fastapi_base.Prelude.{ℕ, ◌+◌, ◌≤◌, ◌≡◌, refl, true, Option, none, some, arith}
use fastapi_base.Posts.Model.{Lease}
use fastapi_base.Posts.Lease.{current_lease, new_lease, acquire_or_renew, set_nx, release}
use fastapi_base.Posts.Lease.Exclusion.{System, tick, lead, lock, drop_key, Reach, start, later}

abbrev pub IsShort : ℕ → Option Lease → Type 0
IsShort deadline none = Unit
IsShort deadline (some lease) = lease.expires_at ≤ deadline

IsShort-mono :
    (deadline deadline' : ℕ) (key : Option Lease)
    → deadline ≤ deadline'
    → IsShort deadline key
    → IsShort deadline' key
IsShort-mono deadline deadline' none le h = tt
IsShort-mono deadline deadline' (some lease) le h = omega (arith, le, h)

acquire_or_renew-IsShort :
    (now ttl_seconds token : ℕ) (key : Option Lease)
    → IsShort (now + ttl_seconds) key
    → IsShort (now + ttl_seconds) (acquire_or_renew now ttl_seconds token key).1
unfolding acquire_or_renew current_lease
acquire_or_renew-IsShort now ttl_seconds token none h = omega arith
acquire_or_renew-IsShort now ttl_seconds token (some lease) h = ground (arith, h)

set_nx-IsShort :
    (now ttl_seconds token : ℕ) (key : Option Lease)
    → IsShort (now + ttl_seconds) key
    → IsShort (now + ttl_seconds) (set_nx now ttl_seconds token key).1
unfolding set_nx current_lease
set_nx-IsShort now ttl_seconds token none h = omega arith
set_nx-IsShort now ttl_seconds token (some lease) h = ground (arith, h)

release-IsShort :
    (now deadline token : ℕ) (key : Option Lease)
    → IsShort deadline key
    → IsShort deadline (release now token key)
unfolding release current_lease
release-IsShort now deadline token none h = tt
release-IsShort now deadline token (some lease) h = ground (arith, h)

Reach-IsShort :
    (ttl_seconds : ℕ) {s : System} → Reach ttl_seconds s → IsShort (s.now + ttl_seconds) s.key
Reach-IsShort ttl_seconds start = tt
Reach-IsShort ttl_seconds (later {s} before tick) =
    IsShort-mono (s.now + ttl_seconds) (s.now + 1 + ttl_seconds) s.key (omega arith)
      (Reach-IsShort ttl_seconds before)
Reach-IsShort ttl_seconds (later {s} before (lead token)) =
    acquire_or_renew-IsShort s.now ttl_seconds token s.key (Reach-IsShort ttl_seconds before)
Reach-IsShort ttl_seconds (later {s} before (lock token)) =
    set_nx-IsShort s.now ttl_seconds token s.key (Reach-IsShort ttl_seconds before)
Reach-IsShort ttl_seconds (later {s} before (drop_key token)) =
    release-IsShort s.now (s.now + ttl_seconds) token s.key (Reach-IsShort ttl_seconds before)

acquire_or_renew_stale :
    (now ttl_seconds token : ℕ) (key : Option Lease)
    → IsShort now key
    → acquire_or_renew now ttl_seconds token key ≡ (true, new_lease now ttl_seconds token)
unfolding acquire_or_renew current_lease
acquire_or_renew_stale now ttl_seconds token none h = refl
acquire_or_renew_stale now ttl_seconds token (some lease) h = ground (arith, h)

-- Whatever the workers did before, once the time to live has passed without a further call, any
-- worker that asks to lead is granted the key: a holder that stopped blocks the others no longer.
pub takeover :
    (ttl_seconds : ℕ) (s : System)
    → Reach ttl_seconds s
    → (token : ℕ)
    → acquire_or_renew (s.now + ttl_seconds) ttl_seconds token s.key
      ≡ (true, new_lease (s.now + ttl_seconds) ttl_seconds token)
takeover ttl_seconds s reached token =
    acquire_or_renew_stale (s.now + ttl_seconds) ttl_seconds token s.key
      (Reach-IsShort ttl_seconds reached)

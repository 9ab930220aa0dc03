-- ===== src/Posts/Lease/Exclusion.antt =====
-- Workers that share one key, in any interleaving of their scripts with the clock. What a worker knows
-- is the answer of its last call: until when it holds the key after a grant, and that it does not after a
-- refusal or a release.
use fastapi_base.Prelude.{
  ℕ, ◌+◌, ◌<◌, ◌≡◌, refl, ◌==◌, Bool, true, false, Option, none, some, if◌then◌else◌, arith,
  Bool-cases, inl, inr,
}
use fastapi_base.Posts.Model.{Lease}
use fastapi_base.Posts.Lease.{current_lease, acquire_or_renew, set_nx, release}

pub record System : Type 0 where
  pub now : ℕ
  pub key : Option Lease
  -- by token: the instant until which the worker may act as the holder; 0 for one that holds nothing
  pub held_until : ℕ → ℕ

abbrev pub set_at : ℕ → ℕ → (ℕ → ℕ) → ℕ → ℕ
set_at token n f other = if other == token then n else f other

-- a worker's knowledge after a call that asked for the key
abbrev pub after_answer : Bool → ℕ → ℕ → (ℕ → ℕ) → ℕ → ℕ
after_answer true deadline token f = set_at token deadline f
after_answer false deadline token f = set_at token 0 f

-- the key's time to live is the same for all workers, as the callers pass the constant
pub data Step (ttl_seconds : ℕ) (s : System) : System → Type 0 where
  tick : Step ttl_seconds s (record s { now = s.now + 1 })
  lead :
      (token : ℕ)
      → Step ttl_seconds s (record s {
        key = (acquire_or_renew s.now ttl_seconds token s.key).1;
        held_until =
            after_answer
              (acquire_or_renew s.now ttl_seconds token s.key).0
              (s.now + ttl_seconds)
              token
              s.held_until;
      })
  lock :
      (token : ℕ)
      → Step ttl_seconds s (record s {
        key = (set_nx s.now ttl_seconds token s.key).1;
        held_until =
            after_answer
              (set_nx s.now ttl_seconds token s.key).0
              (s.now + ttl_seconds)
              token
              s.held_until;
      })
  drop_key :
      (token : ℕ)
      → Step ttl_seconds s
          (record s { key = release s.now token s.key; held_until = set_at token 0 s.held_until })

abbrev pub init : System
init = record { now = 0; key = none; held_until = λ _. 0 }

pub data Reach (ttl_seconds : ℕ) : System → Type 0 where
  start : Reach ttl_seconds init
  later : {s t : System} → Reach ttl_seconds s → Step ttl_seconds s t → Reach ttl_seconds t

-- A worker that may act as the holder is the one that the key names, and the key lives as long.
abbrev pub IsBacked : System → Type 0
IsBacked s =
    (token : ℕ)
    → s.now < s.held_until token
    → s.key ≡ some (record { token = token; expires_at = s.held_until token })

after_answer-other :
    (b : Bool) (deadline token other : ℕ) (f : ℕ → ℕ)
    → (other == token) ≡ false
    → after_answer b deadline token f other ≡ f other
after_answer-other true deadline token other f distinct = rw (distinct)
after_answer-other false deadline token other f distinct = rw (distinct)

after_answer-same :
    (b : Bool) (deadline token other now : ℕ) (f : ℕ → ℕ)
    → (other == token) ≡ true
    → now < after_answer b deadline token f other
    → (b ≡ true) × (after_answer b deadline token f other ≡ deadline)
after_answer-same true deadline token other now f same held = (refl, rw (same))
after_answer-same false deadline token other now f same held = ground (arith, same)

-- A call that asks for the key changes nothing of a key that another worker holds.
record IsAsk (ask : ℕ → Option Lease → Bool × Option Lease) (now ttl_seconds : ℕ) : Type 0 where
  pub refused :
      (token other deadline : ℕ)
      → now < deadline
      → (other == token) ≡ false
      → ask token (some (record { token = other; expires_at = deadline }))
        ≡ (false, some (record { token = other; expires_at = deadline }))
  pub granted :
      (token : ℕ) (key : Option Lease)
      → (ask token key).0 ≡ true
      → (ask token key).1 ≡ some (record { token = token; expires_at = now + ttl_seconds })

pub acquire_or_renew-granted :
    (now ttl_seconds token : ℕ) (key : Option Lease)
    → (acquire_or_renew now ttl_seconds token key).0 ≡ true
    → (acquire_or_renew now ttl_seconds token key).1
      ≡ some (record { token = token; expires_at = now + ttl_seconds })
unfolding acquire_or_renew current_lease
acquire_or_renew-granted now ttl_seconds token none won = refl
acquire_or_renew-granted now ttl_seconds token (some lease) won = ground (arith, won)

acquire_or_renew-IsAsk :
    (now ttl_seconds : ℕ) → IsAsk (acquire_or_renew now ttl_seconds) now ttl_seconds
unfolding acquire_or_renew current_lease
acquire_or_renew-IsAsk now ttl_seconds = record {
  refused = λ token other deadline live distinct. ground (arith, live, distinct);
  granted = acquire_or_renew-granted now ttl_seconds;
}

set_nx-granted :
    (now ttl_seconds token : ℕ) (key : Option Lease)
    → (set_nx now ttl_seconds token key).0 ≡ true
    → (set_nx now ttl_seconds token key).1
      ≡ some (record { token = token; expires_at = now + ttl_seconds })
unfolding set_nx current_lease
set_nx-granted now ttl_seconds token none won = refl
set_nx-granted now ttl_seconds token (some lease) won = ground (arith, won)

set_nx-IsAsk : (now ttl_seconds : ℕ) → IsAsk (set_nx now ttl_seconds) now ttl_seconds
unfolding set_nx current_lease
set_nx-IsAsk now ttl_seconds = record {
  refused = λ token other deadline live distinct. ground (arith, live, distinct);
  granted = set_nx-granted now ttl_seconds;
}

-- After a worker asked, whoever may act as the holder is the one that the key names.
ask-IsBacked :
    (ask : ℕ → Option Lease → Bool × Option Lease) (ttl_seconds token : ℕ) (s : System)
    → IsAsk ask s.now ttl_seconds
    → IsBacked s
    → IsBacked (record s {
      key = (ask token s.key).1;
      held_until = after_answer (ask token s.key).0 (s.now + ttl_seconds) token s.held_until;
    })
ask-IsBacked ask ttl_seconds token s is_ask backed other held = elim (Bool-cases (other == token)) [
  | inl same ↦
      let (won, until) =
        after_answer-same (ask token s.key).0 (s.now + ttl_seconds) token other s.now s.held_until
          same held in
      let equal : other ≡ token = ground (arith, same) in
      rw (until, is_ask.granted token s.key won, equal) refl
  | inr distinct ↦
      let kept =
        after_answer-other (ask token s.key).0 (s.now + ttl_seconds) token other s.held_until
          distinct in
      let live : s.now < s.held_until other = rw kept at held in
      rw (kept, backed other live, is_ask.refused token other (s.held_until other) live distinct)
        refl
]

release-other :
    (now token other deadline : ℕ)
    → now < deadline
    → (other == token) ≡ false
    → release now token (some (record { token = other; expires_at = deadline }))
      ≡ some (record { token = other; expires_at = deadline })
unfolding release current_lease
release-other now token other deadline live distinct = ground (arith, live, distinct)

drop_key-IsBacked :
    (token : ℕ) (s : System)
    → IsBacked s
    → IsBacked
        (record s { key = release s.now token s.key; held_until = set_at token 0 s.held_until })
drop_key-IsBacked token s backed other held = elim (Bool-cases (other == token)) [
  | inl same ↦ ground (arith, same, held)
  | inr distinct ↦
      let live : s.now < s.held_until other = rw distinct at held in
      rw
        (
          distinct,
          backed other live,
          release-other s.now token other (s.held_until other) live distinct,
        )
        refl
]

step-IsBacked : (ttl_seconds : ℕ) {s t : System} → Step ttl_seconds s t → IsBacked s → IsBacked t
step-IsBacked ttl_seconds {s} tick backed = λ token held. backed token (omega (arith, held))
step-IsBacked ttl_seconds {s} (lead token) backed =
    ask-IsBacked (acquire_or_renew s.now ttl_seconds) ttl_seconds token s
      (acquire_or_renew-IsAsk s.now ttl_seconds) backed
step-IsBacked ttl_seconds {s} (lock token) backed =
    ask-IsBacked (set_nx s.now ttl_seconds) ttl_seconds token s (set_nx-IsAsk s.now ttl_seconds)
      backed
step-IsBacked ttl_seconds {s} (drop_key token) backed = drop_key-IsBacked token s backed

Reach-IsBacked : (ttl_seconds : ℕ) {s : System} → Reach ttl_seconds s → IsBacked s
Reach-IsBacked ttl_seconds start = λ token held. ground (arith, held)
Reach-IsBacked ttl_seconds (later before step) =
    step-IsBacked ttl_seconds step (Reach-IsBacked ttl_seconds before)

-- However the workers' calls and the clock interleave: two workers, for each of which the last of its own
-- calls on the key asked for it and was granted less than the time to live ago, so that it has neither
-- released the key nor been refused it since, are the same worker.
pub one_holder :
    (ttl_seconds : ℕ) (s : System)
    → Reach ttl_seconds s
    → (token other : ℕ) → s.now < s.held_until token
    → s.now < s.held_until other
    → token ≡ other
one_holder ttl_seconds s reached token other held held' =
    let backed = Reach-IsBacked ttl_seconds reached in cc (backed token held, backed other held')

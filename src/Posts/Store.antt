-- ===== src/Posts/Store.antt =====
-- AutosaveStore (apps/blog/store.py): the HASH per post and the set of dirty posts. A method runs one script
-- at the time `now`, in seconds; discard sends two commands.
pub mod Marking
pub mod Index
use fastapi_base.Prelude.{
  ℕ, ◌+◌, ◌==◌, ltb, is_num, not, any, delete, Bool, true, false, Option, none, some, List, [], ◌∷◌,
  ◌++◌, if◌then◌else◌,
}
use fastapi_base.Posts.Model.{AutosaveSnapshot, Redis, Lease, autosave_ttl_seconds}
use fastapi_base.Posts.Lease.{set_nx, release}

abbrev pub is_dirty : AutosaveSnapshot → Bool
is_dirty snapshot = not (is_num snapshot.flushed_hash snapshot.content_hash)

abbrev pub set_key {ℓ} : {A : Type ℓ} → ℕ → A → (ℕ → A) → ℕ → A
set_key key value keys other = if other == key then value else keys other

abbrev pub live : ℕ → Option AutosaveSnapshot → Option AutosaveSnapshot
live now none = none
live now (some snapshot) = if ltb now snapshot.expires_at then some snapshot else none

-- HGETALL of the post's key
unfoldable pub get : ℕ → ℕ → Redis → Option AutosaveSnapshot
get now post_id r = live now (r.snapshots post_id)

abbrev pub is_member : ℕ → ℕ → Bool
is_member post_id member = member == post_id

-- SADD
abbrev pub add_dirty : ℕ → List ℕ → List ℕ
add_dirty post_id members =
    if any (is_member post_id) members then members else members ++ post_id ∷ []

abbrev pub flushed_of : Option AutosaveSnapshot → Option ℕ
flushed_of none = none
flushed_of (some snapshot) = snapshot.flushed_hash

-- _SAVE_SCRIPT: the HASH is written anew, but for its flushed_hash
unfoldable pub save : ℕ → AutosaveSnapshot → Redis → Redis
save now snapshot r = record r {
  snapshots =
      set_key snapshot.post_id
        (some (record snapshot {
          flushed_hash = flushed_of (get now snapshot.post_id r);
          expires_at = now + autosave_ttl_seconds;
        }))
        r.snapshots;
  dirty = add_dirty snapshot.post_id r.dirty;
}

-- _MARK_FLUSHED_SCRIPT: the script's answer, and the keys after it
unfoldable pub mark_flushed : ℕ → ℕ → ℕ → Redis → Bool × Redis
mark_flushed now post_id content_hash r = elim (get now post_id r) [
  | none ↦ (false, r)
  | some snapshot ↦
      if snapshot.content_hash == content_hash
      then (
        true,
        record r {
          snapshots =
              set_key post_id (some (record snapshot { flushed_hash = some content_hash }))
                r.snapshots;
          dirty = delete (is_member post_id) r.dirty;
        },
      )
      else (false, r)
]

-- DEL of the post's key
unfoldable pub delete_key : ℕ → Redis → Redis
delete_key post_id r = record r { snapshots = set_key post_id none r.snapshots }

-- SREM of the dirty set
unfoldable pub remove_dirty : ℕ → Redis → Redis
remove_dirty post_id r = record r { dirty = delete (is_member post_id) r.dirty }

-- `between` is what other clients do between the two commands
unfoldable pub discard : (Redis → Redis) → ℕ → Redis → Redis
discard between post_id r = remove_dirty post_id (between (delete_key post_id r))

unfoldable pub acquire_flush_lock : ℕ → ℕ → ℕ → ℕ → Redis → Bool × Redis
acquire_flush_lock now ttl_seconds token post_id r =
    let (acquired, key) = set_nx now ttl_seconds token (r.locks post_id) in
    (acquired, record r { locks = set_key post_id key r.locks })

unfoldable pub release_flush_lock : ℕ → ℕ → ℕ → Redis → Redis
release_flush_lock now token post_id r = record r {
  locks = set_key post_id (release now token (r.locks post_id)) r.locks;
}

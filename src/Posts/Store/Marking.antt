-- ===== src/Posts/Store/Marking.antt =====
-- The compare-and-set of mark_flushed.
use fastapi_base.Prelude.{
  ℕ, ◌≡◌, refl, sym, ap, ◌∙◌, ◌==◌, ==_refl, ltb, delete, true, false, Option, none, some,
  if◌then◌else◌, arith, Bool-cases, Option-cases, inl, inr, ◌⊎◌, any, List, [], ◌∷◌,
}
use fastapi_base.Posts.Model.{AutosaveSnapshot, Redis}
use fastapi_base.Posts.Store.{is_dirty, set_key, live, get, is_member, mark_flushed}

abbrev pub marked : ℕ → AutosaveSnapshot → AutosaveSnapshot
marked content_hash snapshot = record snapshot { flushed_hash = some content_hash }

abbrev pub with_marked : ℕ → ℕ → AutosaveSnapshot → Redis → Redis
with_marked post_id content_hash snapshot r = record r {
  snapshots = set_key post_id (some (marked content_hash snapshot)) r.snapshots;
  dirty = delete (is_member post_id) r.dirty;
}

-- What a call finds and does: it marks the current content, or changes nothing.
pub mark_flushed-cases :
    (now post_id content_hash : ℕ) (r : Redis)
    → ((snapshot : AutosaveSnapshot) × ((get now post_id r ≡ some snapshot)
          × ((snapshot.content_hash == content_hash) ≡ true))
        × (mark_flushed now post_id content_hash r
            ≡ (true, with_marked post_id content_hash snapshot r)))
      ⊎ (mark_flushed now post_id content_hash r ≡ (false, r))
unfolding mark_flushed
mark_flushed-cases now post_id content_hash r = elim (Option-cases (get now post_id r)) [
  | inl e ↦ inr (rw (mark_flushed, e) refl)
  | inr (s, e) ↦ elim (Bool-cases (s.content_hash == content_hash)) [
    | inl current ↦ inl (s, (e, current), rw (mark_flushed, e, current) refl)
    | inr stale ↦ inr (rw (mark_flushed, e, stale) refl)
  ]
]

pub live-some :
    (now : ℕ) (s snapshot : AutosaveSnapshot) → live now (some s) ≡ some snapshot → s ≡ snapshot
live-some now s snapshot h = elim (Bool-cases (ltb now s.expires_at)) [
  | inl e ↦ cc (rw e at h)
  | inr e ↦ cc (rw e at h)
]

pub marked_clean :
    (content_hash : ℕ) (s snapshot : AutosaveSnapshot)
    → (s.content_hash == content_hash) ≡ true
    → marked content_hash s ≡ snapshot
    → is_dirty snapshot ≡ false
marked_clean content_hash s snapshot same equal =
    let clean : is_dirty (marked content_hash s) ≡ false = ground (arith, same) in
    sym (ap is_dirty equal) ∙ clean

pub live_alive :
    (now : ℕ) (key : Option AutosaveSnapshot) (snapshot : AutosaveSnapshot)
    → live now key ≡ some snapshot
    → ltb now snapshot.expires_at ≡ true
live_alive now none snapshot h = cc
live_alive now (some s) snapshot h = elim (Bool-cases (ltb now s.expires_at)) [
  | inl e ↦
      let same : s ≡ snapshot = cc (rw e at h) in sym (ap (λ x. ltb now x.expires_at) same) ∙ e
  | inr e ↦ cc (rw e at h)
]

pub get-marked :
    (now post_id content_hash : ℕ) (r : Redis) (snapshot : AutosaveSnapshot)
    → get now post_id r ≡ some snapshot
    → get now post_id (with_marked post_id content_hash snapshot r)
      ≡ some (marked content_hash snapshot)
unfolding get
get-marked now post_id content_hash r snapshot found =
    rw (==_refl post_id, live_alive now (r.snapshots post_id) snapshot found) refl

any-delete_self :
    (post_id : ℕ) (members : List ℕ)
    → any (is_member post_id) (delete (is_member post_id) members) ≡ false
any-delete_self post_id [] = refl
any-delete_self post_id (m ∷ members) = ground (arith, any-delete_self post_id members)

-- The mark is a compare-and-set. Where the live snapshot has the hash that was flushed, the answer is
-- true, the snapshot is clean and the post leaves the dirty set; where a later save put another hash
-- there, the answer is false, and the snapshot and the dirty set are as they were.
pub mark_flushed-cas :
    (now post_id content_hash : ℕ) (r : Redis) (snapshot : AutosaveSnapshot)
    → get now post_id r ≡ some snapshot
    → let current = snapshot.content_hash == content_hash in
      let (answer, r') = mark_flushed now post_id content_hash r in
      (answer ≡ current)
      × (get now post_id r' ≡ some (if current then marked content_hash snapshot else snapshot))
      × (any (is_member post_id) r'.dirty
          ≡ (if current then false else any (is_member post_id) r.dirty))
unfolding mark_flushed
mark_flushed-cas now post_id content_hash r snapshot found =
    elim (Bool-cases (snapshot.content_hash == content_hash)) [
      | inr stale ↦ rw (mark_flushed, found, stale) (refl, found, refl)
      | inl current ↦
          rw (mark_flushed, found, current)
            (
              refl,
              get-marked now post_id content_hash r snapshot found,
              any-delete_self post_id r.dirty,
            )
    ]

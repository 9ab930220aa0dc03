-- ===== src/Posts/Store/Index.antt =====
-- The dirty set against the hashes: what the sweeper finds by the set is all that there is to flush.
use fastapi_base.Prelude.{
  ℕ, ◌+◌, ◌≤◌, ◌≡◌, refl, ◌==◌, ==_refl, any, delete, any-append, ◌&&◌, Bool, true, false, Option,
  none, some, List, [], ◌∷◌, arith, Bool-cases, inl, inr,
}
use fastapi_base.Posts.Model.{AutosaveSnapshot, Redis}
use fastapi_base.Posts.Store.Marking.{
  live-some, marked_clean, mark_flushed-cases, with_marked, marked as with_hash,
}
use fastapi_base.Posts.Store.{
  is_dirty, live, get, is_member, add_dirty, save, mark_flushed, delete_key, remove_dirty,
}

-- A post whose snapshot is not flushed is in the dirty set.
abbrev pub IsIndexed : ℕ → Redis → Type 0
IsIndexed now r =
    (post_id : ℕ) (snapshot : AutosaveSnapshot)
    → get now post_id r ≡ some snapshot
    → is_dirty snapshot ≡ true
    → any (is_member post_id) r.dirty ≡ true

-- the scripts and commands that write the hashes and the set; a discard sends the last two, one after
-- the other, and any others may come between them
pub data Script : Type 0 where
  save_script : AutosaveSnapshot → Script
  mark_flushed_script : ℕ → ℕ → Script
  delete_command : ℕ → Script
  remove_command : ℕ → Script

unfoldable pub eval : ℕ → Script → Redis → Redis
eval now (save_script snapshot) r = save now snapshot r
eval now (mark_flushed_script post_id content_hash) r = (mark_flushed now post_id content_hash r).1
eval now (delete_command post_id) r = delete_key post_id r
eval now (remove_command post_id) r = remove_dirty post_id r

-- the posts whose discard is under way, with no save since its first command
abbrev pub under_way : Script → List ℕ → List ℕ
under_way (save_script snapshot) posts = delete (is_member snapshot.post_id) posts
under_way (mark_flushed_script post_id content_hash) posts = posts
under_way (delete_command post_id) posts = post_id ∷ posts
under_way (remove_command post_id) posts = posts

abbrev is_orderly_step : Script → List ℕ → Bool
is_orderly_step (save_script snapshot) posts = true
is_orderly_step (mark_flushed_script post_id content_hash) posts = true
is_orderly_step (delete_command post_id) posts = true
is_orderly_step (remove_command post_id) posts = any (is_member post_id) posts

-- No save of a post comes between the two commands of a discard of it.
abbrev pub is_orderly : List ℕ → List (ℕ × Script) → Bool
is_orderly posts [] = true
is_orderly posts ((delay, script) ∷ rest) =
    is_orderly_step script posts && is_orderly (under_way script posts) rest

-- The hash of a post whose discard is under way is gone.
abbrev AreGone : List ℕ → Redis → Type 0
AreGone posts r = (post_id : ℕ) → any (is_member post_id) posts ≡ true → r.snapshots post_id ≡ none

live_later :
    (now later : ℕ) (key : Option AutosaveSnapshot) (snapshot : AutosaveSnapshot)
    → now ≤ later
    → live later key ≡ some snapshot
    → live now key ≡ some snapshot
live_later now later none snapshot le h = cc
live_later now later (some s) snapshot le h = ground (arith, le, h)

IsIndexed-later : (now later : ℕ) (r : Redis) → now ≤ later → IsIndexed now r → IsIndexed later r
unfolding get
IsIndexed-later now later r le indexed post_id snapshot found =
    indexed post_id snapshot (live_later now later (r.snapshots post_id) snapshot le found)

any-add_dirty_self :
    (post_id : ℕ) (members : List ℕ) → any (is_member post_id) (add_dirty post_id members) ≡ true
any-add_dirty_self post_id members = elim (Bool-cases (any (is_member post_id) members)) [
  | inl e ↦ rw (e, e)
  | inr e ↦ rw (e, any-append (is_member post_id) members (post_id ∷ []), e, ==_refl post_id) refl
]

any-add_dirty :
    (post_id other : ℕ) (members : List ℕ)
    → any (is_member other) members ≡ true
    → any (is_member other) (add_dirty post_id members) ≡ true
any-add_dirty post_id other members h = elim (Bool-cases (any (is_member post_id) members)) [
  | inl e ↦ rw e h
  | inr e ↦ rw (e, any-append (is_member other) members (post_id ∷ []), h) refl
]

any-delete_other :
    (post_id other : ℕ) (members : List ℕ)
    → (other == post_id) ≡ false
    → any (is_member other) members ≡ true
    → any (is_member other) (delete (is_member post_id) members) ≡ true
any-delete_other post_id other [] distinct h = cc
any-delete_other post_id other (m ∷ members) distinct h =
    ground (arith, distinct, h, any-delete_other post_id other members distinct)

save-IsIndexed :
    (now : ℕ) (s : AutosaveSnapshot) (r : Redis) → IsIndexed now r → IsIndexed now (save now s r)
unfolding save get
save-IsIndexed now s r indexed post_id snapshot found dirty =
    elim (Bool-cases (post_id == s.post_id)) [
      | inl same ↦
          let equal : post_id ≡ s.post_id = ground (arith, same) in
          rw equal (any-add_dirty_self s.post_id r.dirty)
      | inr distinct ↦
          any-add_dirty s.post_id post_id r.dirty
            (indexed post_id snapshot (rw distinct at found) dirty)
    ]

delete_key-IsIndexed :
    (now post_id : ℕ) (r : Redis) → IsIndexed now r → IsIndexed now (delete_key post_id r)
unfolding delete_key get
delete_key-IsIndexed now discarded r indexed post_id snapshot found dirty =
    elim (Bool-cases (post_id == discarded)) [
      | inl same ↦ cc (rw same at found)
      | inr distinct ↦ indexed post_id snapshot (rw distinct at found) dirty
    ]

remove_dirty-IsIndexed :
    (now post_id : ℕ) (r : Redis)
    → r.snapshots post_id ≡ none
    → IsIndexed now r
    → IsIndexed now (remove_dirty post_id r)
unfolding remove_dirty get
remove_dirty-IsIndexed now discarded r gone indexed post_id snapshot found dirty =
    elim (Bool-cases (post_id == discarded)) [
      | inl same ↦
          let equal : post_id ≡ discarded = ground (arith, same) in cc (rw (equal, gone) at found)
      | inr distinct ↦
          any-delete_other discarded post_id r.dirty distinct (indexed post_id snapshot found dirty)
    ]

mark_flushed-IsIndexed :
    (now post_id content_hash : ℕ) (r : Redis)
    → IsIndexed now r
    → IsIndexed now (mark_flushed now post_id content_hash r).1
unfolding get
mark_flushed-IsIndexed now marked content_hash r indexed post_id snapshot found dirty =
    elim (mark_flushed-cases now marked content_hash r) [
      | inl (s, (got, current), e) ↦ elim (Bool-cases (post_id == marked)) [
        | inl same ↦
            let written : live now (some (with_hash content_hash s)) ≡ some snapshot =
              rw same at (rw e at found) in
            let kept = live-some now (with_hash content_hash s) snapshot written in
            let clean = marked_clean content_hash s snapshot current kept in cc (dirty, clean)
        | inr distinct ↦
            let before : live now (r.snapshots post_id) ≡ some snapshot =
              rw distinct at (rw e at found) in
            rw e (
              any-delete_other marked post_id r.dirty distinct
                (indexed post_id snapshot before dirty))
      ]
      | inr e ↦ rw e (indexed post_id snapshot (rw e at found) dirty)
    ]

eval-IsIndexed :
    (now : ℕ) (script : Script) (posts : List ℕ) (r : Redis)
    → is_orderly_step script posts ≡ true
    → AreGone posts r
    → IsIndexed now r
    → IsIndexed now (eval now script r)
unfolding eval
eval-IsIndexed now (save_script snapshot) posts r orderly gone = save-IsIndexed now snapshot r
eval-IsIndexed now (mark_flushed_script post_id content_hash) posts r orderly gone =
    mark_flushed-IsIndexed now post_id content_hash r
eval-IsIndexed now (delete_command post_id) posts r orderly gone =
    delete_key-IsIndexed now post_id r
eval-IsIndexed now (remove_command post_id) posts r orderly gone =
    remove_dirty-IsIndexed now post_id r (gone post_id orderly)

member-delete :
    (post_id other : ℕ) (posts : List ℕ)
    → any (is_member other) (delete (is_member post_id) posts) ≡ true
    → (any (is_member other) posts ≡ true) × ((other == post_id) ≡ false)
member-delete post_id other [] h = cc
member-delete post_id other (p ∷ posts) h = elim (Bool-cases (p == post_id)) [
  | inl e ↦
      let (here, distinct) = member-delete post_id other posts (rw e at h) in
      (ground (arith, here), distinct)
  | inr e ↦ elim (Bool-cases (p == other)) [
    | inl same ↦ (ground (arith, same), ground (arith, same, e))
    | inr other_one ↦
        let (here, distinct) =
          member-delete post_id other posts (ground (arith, other_one, (rw e at h))) in
        (ground (arith, here), distinct)
  ]
]

no_hash : (now post_id : ℕ) (r : Redis) → r.snapshots post_id ≡ none → get now post_id r ≡ none
unfolding get
no_hash now post_id r empty = rw empty refl

eval-AreGone :
    (now : ℕ) (script : Script) (posts : List ℕ) (r : Redis)
    → AreGone posts r
    → AreGone (under_way script posts) (eval now script r)
unfolding eval save delete_key remove_dirty
eval-AreGone now (save_script snapshot) posts r gone post_id h =
    let (here, distinct) = member-delete snapshot.post_id post_id posts h in
    rw distinct (gone post_id here)
eval-AreGone now (mark_flushed_script marked content_hash) posts r gone post_id h =
    elim (mark_flushed-cases now marked content_hash r) [
      | inl (s, (got, current), e) ↦ elim (Bool-cases (post_id == marked)) [
        | inl same ↦
            let equal : post_id ≡ marked = ground (arith, same) in
            let empty : r.snapshots marked ≡ none = rw equal at (gone post_id h) in
            cc (no_hash now marked r empty, got)
        | inr distinct ↦
            let kept : (with_marked marked content_hash s r).snapshots post_id ≡ none =
              rw distinct (gone post_id h) in
            rw (eval, e) kept
      ]
      | inr e ↦ rw (eval, e) (gone post_id h)
    ]
eval-AreGone now (delete_command discarded) posts r gone post_id h =
    elim (Bool-cases (post_id == discarded)) [
      | inl same ↦ rw same refl
      | inr distinct ↦ rw distinct (gone post_id (ground (arith, distinct, h)))
    ]
eval-AreGone now (remove_command discarded) posts r gone post_id h = gone post_id h

-- The scripts of a run, each with the time since the one before it.
unfoldable pub run_scripts : ℕ → List (ℕ × Script) → Redis → Redis
run_scripts now [] r = r
run_scripts now ((delay, script) ∷ rest) r =
    run_scripts (now + delay) rest (eval (now + delay) script r)

abbrev pub end_of : ℕ → List (ℕ × Script) → ℕ
end_of now [] = now
end_of now ((delay, script) ∷ rest) = end_of (now + delay) rest

run_scripts-under_way :
    (now : ℕ) (posts : List ℕ) (scripts : List (ℕ × Script)) (r : Redis)
    → is_orderly posts scripts ≡ true
    → AreGone posts r
    → IsIndexed now r
    → IsIndexed (end_of now scripts) (run_scripts now scripts r)
unfolding run_scripts
run_scripts-under_way now posts [] r orderly gone indexed = indexed
run_scripts-under_way now posts ((delay, script) ∷ rest) r orderly gone indexed =
    let later = now + delay in
    let here : is_orderly_step script posts ≡ true = ground (arith, orderly) in
    let after : is_orderly (under_way script posts) rest ≡ true = ground (arith, orderly) in
    run_scripts-under_way later (under_way script posts) rest (eval later script r) after
      (eval-AreGone later script posts r gone)
      (eval-IsIndexed later script posts r here gone
        (IsIndexed-later now later r (omega arith) indexed))

-- Whatever saves, marks and discards are made and whatever time passes between them, when no save of a
-- post comes between the two commands of a discard of it, then, from a Redis in which this holds and
-- with no discard under way, such as an empty one, every post with an unflushed snapshot stays in the
-- dirty set.
pub run_scripts-IsIndexed :
    (now : ℕ) (scripts : List (ℕ × Script)) (r : Redis)
    → is_orderly [] scripts ≡ true
    → IsIndexed now r
    → IsIndexed (end_of now scripts) (run_scripts now scripts r)
run_scripts-IsIndexed now scripts r orderly =
    run_scripts-under_way now [] scripts r orderly (λ post_id h. cc)

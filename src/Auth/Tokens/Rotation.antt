-- ===== src/Auth/Tokens/Rotation.antt =====
-- A refresh token works once, and what the reuse of one does.
use fastapi_base.Prelude.{
  ℕ, ◌≤◌, ◌==◌, ◌≡◌, refl, true, false, Option, none, some, List, [], ◌∷◌, ◌++◌, arith, Text,
  settled, ok, err, Bool-cases, Option-cases, inl, inr, first, any, count, update, count-append,
  count-zero_of_not_any, first_satisfies, lift, bind-ok, Result,
}
use fastapi_base.Workspace.Counting.{count-pos_of_first}
use fastapi_base.Auth.Model.{RefreshToken, Db, Error, refresh_token_revoked}
use fastapi_base.Auth.Tokens.{
  logout, Minted, TokenPair, refresh, is_active_hash, has_hash, has_token_id, find_active_by_hash,
  find_by_hash, is_unrevoked_of, revoked, rotated, refuse_reused, revoke_all_for_user, rotate,
  issue_pair, add_token, new_token, find_user,
}
use fastapi_base.Auth.Tokens.Inactive.{
  ended-inactive, first-append, first-none_of_not_any, inactive_later,
}

none_unrevoked :
    (now user_id : ℕ) (ts : List RefreshToken)
    → any (is_unrevoked_of user_id) (update (is_unrevoked_of user_id) (revoked now) ts) ≡ false
none_unrevoked now user_id [] = refl
none_unrevoked now user_id (t ∷ ts) = ground (arith, none_unrevoked now user_id ts)

-- A token that is signed and stored but not active any more is refused. The call has by then revoked
-- every token of the user, but the request as a whole leaves every one of them as it was.
pub refresh_reused :
    (hash_token : Text → ℕ) (decode_token : ℕ → Text → Result Error (Option ℕ)) (now : ℕ)
    (minted : Minted) (raw : Text) (db : Db) (subject : Option ℕ) (previous : RefreshToken)
    → decode_token now raw ≡ ok subject
    → find_active_by_hash now (hash_token raw) db ≡ none
    → find_by_hash (hash_token raw) db ≡ some previous
    → let r = refresh hash_token decode_token now minted raw db in
      (r.0 ≡ err refresh_token_revoked)
      × (any (is_unrevoked_of previous.user_id) r.1.refresh_tokens ≡ false)
      × (settled db r ≡ db)
unfolding refresh revoke_all_for_user
refresh_reused hash_token decode_token now minted raw db subject previous signed inactive stored =
    rw (signed, inactive, stored)
      (refl, none_unrevoked now previous.user_id db.refresh_tokens, refl)

-- What a successful rotation leaves in the table.
add_token-ok :
    (t : RefreshToken) (db : Db)
    → (add_token t db).0 ≡ ok tt
    → (any (has_hash t.token_hash) db.refresh_tokens ≡ false)
      × ((add_token t db).1 ≡ record db { refresh_tokens = db.refresh_tokens ++ t ∷ [] })
unfolding add_token
add_token-ok t db h = elim (Bool-cases (any (has_token_id t.id) db.refresh_tokens)) [
  | inl a ↦ cc (rw a at h)
  | inr a ↦ elim (Bool-cases (any (has_hash t.token_hash) db.refresh_tokens)) [
    | inl b ↦ cc (rw (a, b) at h)
    | inr b ↦ (b, rw (a, b) refl)
  ]
]

rotate-inactive :
    (hash_token : Text → ℕ) (now now' h : ℕ) (minted : Minted) (existing : RefreshToken)
    (subject : Option ℕ) (db : Db) {pair : TokenPair}
    → find_active_by_hash now h db ≡ some existing
    → count (has_hash h) db.refresh_tokens ≤ 1
    → (rotate hash_token now minted existing subject db).0 ≡ ok pair
    → find_active_by_hash now' h (rotate hash_token now minted existing subject db).1 ≡ none
unfolding rotate find_active_by_hash issue_pair
rotate-inactive hash_token now now' h minted existing none db found one done = cc
rotate-inactive hash_token now now' h minted existing (some user_id) db found one done =
    elim (Option-cases (find_user user_id db)) [
      | inl e ↦ cc (rw e at done)
      | inr (user, e) ↦
          let t = new_token hash_token minted user.id in
          let ts = db.refresh_tokens in
          let (u, added) =
            bind-ok (add_token t) _ db
              (bind-ok (issue_pair hash_token minted user) _ db (rw e at done)).1 in
          let (new_hash, after) = add_token-ok t db added in
          let hashed : has_hash h existing ≡ true =
            ground (arith, first_satisfies (is_active_hash now h) ts found) in
          let here =
            count-pos_of_first (is_active_hash now h) (has_hash h) ts existing found hashed in
          let absent = count-zero_of_not_any (has_hash t.token_hash) ts new_hash in
          let one' : count (has_hash h) (ts ++ t ∷ []) ≤ 1 = elim (Bool-cases (t.token_hash == h)) [
            | inl x ↦
                let same : t.token_hash ≡ h = ground (arith, x) in
                let none_h : count (has_hash h) ts ≡ 0 = rw same at absent in
                omega (arith, none_h, here)
            | inr x ↦ ground (arith, x, one, count-append (has_hash h) ts (t ∷ []))
          ] in
          rw (e, added, after)
            (first-none_of_not_any (is_active_hash now' h)
              (update (has_token_id existing.id) (rotated hash_token now minted.token_id)
                (ts ++ t ∷ []))
              (ended-inactive (rotated hash_token now minted.token_id) (λ y. refl) (λ y. refl) now
                now' h existing (ts ++ t ∷ [])
                (first-append (is_active_hash now h) ts (t ∷ []) existing found) one'))
    ]

refuse_reused-err :
    (hash_token : Text → ℕ) (now : ℕ) (previous : Option RefreshToken) (db : Db)
    → (refuse_reused hash_token now previous db).0 ≡ err refresh_token_revoked
unfolding refuse_reused revoke_all_for_user
refuse_reused-err hash_token now none db = refl
refuse_reused-err hash_token now (some previous) db = refl

refresh_inactive :
    (hash_token : Text → ℕ) (decode_token : ℕ → Text → Result Error (Option ℕ)) (now : ℕ)
    (minted : Minted) (raw : Text) (db : Db) (subject : Option ℕ)
    → decode_token now raw ≡ ok subject
    → find_active_by_hash now (hash_token raw) db ≡ none
    → (refresh hash_token decode_token now minted raw db).0 ≡ err refresh_token_revoked
unfolding refresh
refresh_inactive hash_token decode_token now minted raw db subject signed inactive =
    rw (signed, inactive) (refuse_reused-err hash_token now (find_by_hash (hash_token raw) db) db)

refresh-inactive :
    (hash_token : Text → ℕ) (decode_token : ℕ → Text → Result Error (Option ℕ)) (now now' : ℕ)
    (minted : Minted) (raw : Text) (db : Db) {pair : TokenPair}
    → count (has_hash (hash_token raw)) db.refresh_tokens ≤ 1
    → (refresh hash_token decode_token now minted raw db).0 ≡ ok pair
    → find_active_by_hash now'
        (hash_token raw)
        (refresh hash_token decode_token now minted raw db).1
      ≡ none
unfolding refresh
refresh-inactive hash_token decode_token now now' minted raw db one done =
    let (subject, signed) = bind-ok (lift (decode_token now raw)) _ db done in
    elim (Option-cases (find_active_by_hash now (hash_token raw) db)) [
      | inl e ↦
          let refused = refuse_reused-err hash_token now (find_by_hash (hash_token raw) db) db in
          cc (rw (signed, e) at done)
      | inr (existing, e) ↦
          rw (signed, e)
            (rotate-inactive hash_token now now' (hash_token raw) minted existing subject db e one
              (rw (signed, e) at done))
    ]

-- A refresh token that was exchanged for a new pair is refused from then on, at any time, where the
-- hash of a token names one row.
pub refresh_twice :
    (hash_token : Text → ℕ) (decode_token : ℕ → Text → Result Error (Option ℕ)) (now now' : ℕ)
    (minted minted' : Minted) (raw : Text) (db : Db) (subject : Option ℕ) {pair : TokenPair}
    → count (has_hash (hash_token raw)) db.refresh_tokens ≤ 1
    → (refresh hash_token decode_token now minted raw db).0 ≡ ok pair
    → decode_token now' raw ≡ ok subject
    → (refresh hash_token decode_token now' minted' raw
        (refresh hash_token decode_token now minted raw db).1).0
      ≡ err refresh_token_revoked
refresh_twice hash_token decode_token now now' minted minted' raw db subject one done signed' =
    refresh_inactive hash_token decode_token now' minted' raw _ subject signed'
      (refresh-inactive hash_token decode_token now now' minted raw db one done)

logout-inactive :
    (hash_token : Text → ℕ) (now now' : ℕ) (raw : Text) (db : Db)
    → now ≤ now'
    → count (has_hash (hash_token raw)) db.refresh_tokens ≤ 1
    → find_active_by_hash now' (hash_token raw) (logout hash_token now raw db).1 ≡ none
unfolding logout find_active_by_hash
logout-inactive hash_token now now' raw db later one =
    elim (Option-cases (first (is_active_hash now (hash_token raw)) db.refresh_tokens)) [
      | inl e ↦ rw e (inactive_later now now' (hash_token raw) db.refresh_tokens later e)
      | inr (t, e) ↦ rw e (
          first-none_of_not_any (is_active_hash now' (hash_token raw))
            (update (has_token_id t.id) (revoked now) db.refresh_tokens)
            (ended-inactive (revoked now) (λ y. refl) (λ y. refl) now now' (hash_token raw) t
              db.refresh_tokens e one))
    ]

logout-ok :
    (hash_token : Text → ℕ) (now : ℕ) (raw : Text) (db : Db)
    → (logout hash_token now raw db).0 ≡ ok tt
unfolding logout
logout-ok hash_token now raw db =
    elim (Option-cases (find_active_by_hash now (hash_token raw) db)) [
      | inl e ↦ rw e refl
      | inr (t, e) ↦ rw e refl
    ]

-- After a logout, which never fails, the token is refused from then on, whether or not it was active,
-- where the hash of a token names one row.
pub refresh_after_logout :
    (hash_token : Text → ℕ) (decode_token : ℕ → Text → Result Error (Option ℕ)) (now now' : ℕ)
    (minted : Minted) (raw : Text) (db : Db) (subject : Option ℕ)
    → now ≤ now'
    → count (has_hash (hash_token raw)) db.refresh_tokens ≤ 1
    → decode_token now' raw ≡ ok subject
    → ((logout hash_token now raw db).0 ≡ ok tt)
      × ((refresh hash_token decode_token now' minted raw (logout hash_token now raw db).1).0
          ≡ err refresh_token_revoked)
refresh_after_logout hash_token decode_token now now' minted raw db subject later one signed = (
  logout-ok hash_token now raw db,
  refresh_inactive hash_token decode_token now' minted raw (logout hash_token now raw db).1 subject
      signed (logout-inactive hash_token now now' raw db later one),
)

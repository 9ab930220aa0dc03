-- ===== src/Auth/Totp/Replay.antt =====
-- A code is accepted only in its window, and a time slice only once.
use fastapi_base.Prelude.{
  ◌∙◌, ℕ, zero, suc, ◌+◌, ◌-◌, ◌/◌, ◌≤◌, ◌<◌, ◌≡◌, refl, true, false, Option, some, [], ◌∷◌, arith,
  Text, same_text, Bool-cases, Option-cases, inl, inr, update, ok, first, first-update, ap, sym,
}
use fastapi_base.Auth.Model.{User, Db}
use fastapi_base.Auth.Totp.{
  is_consumed, walk_window, verify_totp_with_replay_guard, verify, match_code, plaintext_of,
  has_no_secret, with_counter, is_live_user,
}

-- The counter `k` is one of the `n` from `first` on, its code is the given one, and it is later than
-- the last one that was accepted.
pub record IsFresh (totp_at : Text → ℕ → Text) (first n : ℕ) (secret code : Text) (last : Option ℕ)
    (k : ℕ) : Type 0 where
  pub from_first : first ≤ k
  pub to_last : k < first + n
  pub matches : same_text code (totp_at secret k) ≡ true
  pub unused : is_consumed last k ≡ false

module _ (totp_at : Text → ℕ → Text) where
  walk_window-IsFresh :
      (n counter : ℕ) (secret code : Text) (last : Option ℕ) (k : ℕ)
      → walk_window totp_at n counter secret code last ≡ some k
      → IsFresh totp_at counter n secret code last k
  unfolding walk_window
  walk_window-IsFresh zero counter secret code last k h = cc
  walk_window-IsFresh (suc n) counter secret code last k h =
      elim (Bool-cases (same_text code (totp_at secret counter))) [
        | inl e ↦ elim (Bool-cases (is_consumed last counter)) [
          | inl c ↦ cc (rw (e, c) at h)
          | inr c ↦
              let same : counter ≡ k = cc (rw (e, c) at h) in
              rw⁻¹ same (record {
                from_first = omega arith;
                to_last = omega arith;
                matches = e;
                unused = c;
              })
        ]
        | inr e ↦
            let later = walk_window-IsFresh n (suc counter) secret code last k (rw e at h) in
            record {
              from_first = omega (arith, later.from_first);
              to_last = omega (arith, later.to_last);
              matches = later.matches;
              unused = later.unused;
            }
      ]

  -- What the guard accepts is the code of the current time slice or of one beside it, and that slice
  -- is later than the last accepted one.
  replay_guard-IsFresh :
      (now : ℕ) (secret code : Text) (last : Option ℕ) (k : ℕ)
      → verify_totp_with_replay_guard totp_at now secret code last ≡ some k
      → IsFresh totp_at (now / 30 - 1) 3 secret code last k
  unfolding verify_totp_with_replay_guard
  replay_guard-IsFresh now secret code last k =
      walk_window-IsFresh 3 (now / 30 - 1) secret code last k

module _ (decrypt : Text → Text) (totp_at : Text → ℕ → Text) where
  match_code-IsFresh :
      (now : ℕ) (plaintext code : Text) (last : Option ℕ) (k : ℕ)
      → match_code decrypt totp_at now plaintext code last ≡ some k
      → IsFresh totp_at (now / 30 - 1) 3 plaintext code last k
  match_code-IsFresh now [] code last k h = cc
  match_code-IsFresh now (c ∷ plaintext) code last k h =
      replay_guard-IsFresh totp_at now (c ∷ plaintext) code last k h

  -- A login with a two-factor code succeeds only for a user who has it enabled, with the code of a
  -- time slice around now that is later than every slice used before, and it marks that slice used.
  pub verify-ok :
      (now : ℕ) (user : User) (code : Text) (db : Db)
      → (verify decrypt totp_at now user code db).0 ≡ ok true
      → (k : ℕ) × (user.is_2fa_enabled ≡ true)
        × IsFresh totp_at
            (now / 30 - 1)
            3
            (plaintext_of decrypt totp_at user.totp_secret)
            code
            user.last_totp_counter
            k
        × ((verify decrypt totp_at now user code db).1
            ≡ record db { users = update (is_live_user user.id) (with_counter k) db.users })
  unfolding verify
  verify-ok now user code db h =
      let matched =
        match_code decrypt totp_at now (plaintext_of decrypt totp_at user.totp_secret) code
          user.last_totp_counter in
      elim (Bool-cases user.is_2fa_enabled) [
        | inr e ↦ cc (rw e at h)
        | inl e ↦ elim (Bool-cases (has_no_secret decrypt totp_at user.totp_secret)) [
          | inl s ↦ cc (rw (e, s) at h)
          | inr s ↦ elim (Option-cases matched) [
            | inl m ↦ cc (rw (e, s, m) at h)
            | inr (k, m) ↦ (
              k,
              e,
              match_code-IsFresh now (plaintext_of decrypt totp_at user.totp_secret) code
                  user.last_totp_counter k m,
              rw (e, s, m) refl,
            )
          ]
        ]
      ]

  -- When a login with a two-factor code is accepted, and later another one of the same user, who by then
  -- has the counter that the first one stored, then the two codes are those of two time slices, and the
  -- second slice is later than the first, at whatever times the two come and whatever else of the database
  -- has changed between them.
  pub verify_twice :
      (now now' : ℕ) (user stored user' : User) (code code' : Text) (db db' : Db)
      → first (is_live_user user.id) db.users ≡ some user
      → (verify decrypt totp_at now user code db).0 ≡ ok true
      → first (is_live_user user.id) (verify decrypt totp_at now user code db).1.users ≡ some stored
      → user'.last_totp_counter ≡ stored.last_totp_counter
      → (verify decrypt totp_at now' user' code' db').0 ≡ ok true
      → (k k' : ℕ) × (same_text code (totp_at (plaintext_of decrypt totp_at user.totp_secret) k)
          ≡ true)
        × (same_text code' (totp_at (plaintext_of decrypt totp_at user'.totp_secret) k') ≡ true)
        × (k < k')
  verify_twice now now' user stored user' code code' db db' known accepted found kept again =
      let (k, on, fresh, after) = verify-ok now user code db accepted in
      let (k', on', fresh', after') = verify-ok now' user' code' db' again in
      let updated : first (is_live_user user.id)
            (update (is_live_user user.id) (with_counter k) db.users)
          ≡ some stored =
        rw after at found in
      let same : with_counter k user ≡ stored =
        cc (first-update (is_live_user user.id) (with_counter k) db.users user (λ y. refl) known) in
      let counter : user'.last_totp_counter ≡ some k =
        kept ∙ ap (λ (u : User). u.last_totp_counter) (sym same) in
      let unused : is_consumed (some k) k' ≡ false = rw counter at fresh'.unused in
      (k, k', fresh.matches, fresh'.matches, ground (arith, unused))

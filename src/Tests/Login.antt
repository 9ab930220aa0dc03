-- ===== src/Tests/Login.antt =====
-- A user with a refresh token, an e-mail code and a two-factor secret, and requests on them.
use fastapi_base.Prelude.{
  ℕ, ◌-◌, ◌/◌, ◌<◌, ◌≡◌, refl, true, false, none, some, Option, [], ◌∷◌, Text, same_text, ok, err,
  Result, settled, any, update, length, arith,
}
use fastapi_base.Auth.Model.{
  User, RefreshToken, EmailVerification, Db, Error, refresh_token_revoked,
}
use fastapi_base.Auth.Totp.{
  is_live_user, with_counter, plaintext_of, verify, verify_totp_with_replay_guard, walk_window,
  consume_code,
}
use fastapi_base.Auth.Totp.Replay.{IsFresh, verify-ok, verify_twice}
use fastapi_base.Auth.Codes.Guesses.{guess, guess_unlimited}
use fastapi_base.Auth.Tokens.{
  logout, Minted, refresh, is_unrevoked_of, find_active_by_hash, find_by_hash, rotate, issue_pair,
  add_token, find_user,
}
use fastapi_base.Auth.Tokens.Rotation.{refresh_reused, refresh_twice, refresh_after_logout}

abbrev a_user : User
a_user = record {
  id = 1;
  email = 97 ∷ [];
  is_active = false;
  email_verified_at = none;
  hashed_password = [];
  totp_secret = some (115 ∷ []);
  is_2fa_enabled = true;
  last_totp_counter = some 2;
  deleted_at = none;
}

abbrev a_token : RefreshToken
a_token = record {
  id = 30;
  user_id = 1;
  token_hash = 2;
  expires_at = 1000;
  revoked_at = none;
  replaced_by_id = none;
}

abbrev a_code : EmailVerification
a_code = record {
  id = 40;
  user_id = 1;
  code_hash = 6;
  expires_at = 1000;
  used_at = none;
  attempts = 0;
  created_at = 0;
}

abbrev a_store : Db
a_store = record {
  users = a_user ∷ [];
  refresh_tokens = a_token ∷ record a_token { id = 31; token_hash = 3; revoked_at = some 10 } ∷ [];
  email_verifications = a_code ∷ [];
}

-- A hash, a codec and a one-time code for small texts.
abbrev text_length : Text → ℕ
text_length = length

abbrev signed_by_us : ℕ → Text → Result Error (Option ℕ)
signed_by_us now raw = ok (some 1)

abbrev secret_at : Text → ℕ → Text
secret_at secret counter = counter ∷ secret

abbrev plain : Text → Text
plain secret = secret

abbrev next_token : Minted
next_token = record { token_id = 32; refresh_raw = 1 ∷ 1 ∷ 1 ∷ 1 ∷ []; refresh_expires_at = 2000 }

refresh_reused_example :
    let r = refresh text_length signed_by_us 20 next_token (1 ∷ 1 ∷ 1 ∷ []) a_store in
    (r.0 ≡ err refresh_token_revoked)
    × (any (is_unrevoked_of 1) r.1.refresh_tokens ≡ false)
    × (settled a_store r ≡ a_store)
unfolding find_active_by_hash find_by_hash
refresh_reused_example =
    refresh_reused text_length signed_by_us 20 next_token (1 ∷ 1 ∷ 1 ∷ []) a_store (some 1)
      (record a_token { id = 31; token_hash = 3; revoked_at = some 10 }) refl refl refl

refresh_twice_example :
    (refresh text_length signed_by_us 25 next_token
      (1 ∷ 1 ∷ [])
      (refresh text_length signed_by_us 20 next_token (1 ∷ 1 ∷ []) a_store).1).0
    ≡ err refresh_token_revoked
unfolding refresh find_active_by_hash rotate issue_pair add_token find_user
refresh_twice_example =
    refresh_twice text_length signed_by_us 20 25 next_token next_token (1 ∷ 1 ∷ []) a_store (some 1)
      (omega arith) refl refl

refresh_after_logout_example :
    ((logout text_length 20 (1 ∷ 1 ∷ []) a_store).0 ≡ ok tt)
    × ((refresh text_length signed_by_us 25 next_token
          (1 ∷ 1 ∷ [])
          (logout text_length 20 (1 ∷ 1 ∷ []) a_store).1).0
        ≡ err refresh_token_revoked)
refresh_after_logout_example =
    refresh_after_logout text_length signed_by_us 20 25 next_token (1 ∷ 1 ∷ []) a_store (some 1)
      (omega arith) (omega arith) refl

guess_unlimited_example :
    guess text_length 3
      (97 ∷ [])
      ((10, 1 ∷ []) ∷ (11, 2 ∷ []) ∷ (12, 3 ∷ []) ∷ (13, 4 ∷ []) ∷ [])
      a_store
    ≡ a_store
guess_unlimited_example =
    guess_unlimited text_length 3 (97 ∷ [])
      ((10, 1 ∷ []) ∷ (11, 2 ∷ []) ∷ (12, 3 ∷ []) ∷ (13, 4 ∷ []) ∷ []) a_store
      ((refl, tt), ((refl, tt), ((refl, tt), ((refl, tt), tt))))

verify-ok_example :
    (k : ℕ) × (a_user.is_2fa_enabled ≡ true)
    × IsFresh secret_at
        (120 / 30 - 1)
        3
        (plaintext_of plain secret_at a_user.totp_secret)
        (4 ∷ 115 ∷ [])
        a_user.last_totp_counter
        k
    × ((verify plain secret_at 120 a_user (4 ∷ 115 ∷ []) a_store).1
        ≡ record a_store { users = update (is_live_user 1) (with_counter k) a_store.users })
unfolding verify verify_totp_with_replay_guard walk_window consume_code
verify-ok_example = verify-ok plain secret_at 120 a_user (4 ∷ 115 ∷ []) a_store refl

verify_twice_example :
    (k k' : ℕ) × (same_text (4 ∷ 115 ∷ []) (secret_at (115 ∷ []) k) ≡ true)
    × (same_text (5 ∷ 115 ∷ []) (secret_at (115 ∷ []) k') ≡ true)
    × (k < k')
unfolding verify verify_totp_with_replay_guard walk_window consume_code
verify_twice_example =
    verify_twice plain secret_at 120 130 a_user (with_counter 4 a_user) (with_counter 4 a_user)
      (4 ∷ 115 ∷ []) (5 ∷ 115 ∷ []) a_store a_store refl refl refl refl refl

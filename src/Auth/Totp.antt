-- ===== src/Auth/Totp.antt =====
-- verify_totp_with_replay_guard (apps/auth/security/otp.py) and TwoFactorService
-- (apps/auth/services/_two_factor.py). `totp_at secret counter` is pyotp's code of a 30-second time
-- slice, `decrypt` and `encrypt` are Fernet's, and `verify_password` is the password check.
pub mod Replay
use fastapi_base.Prelude.{
  ℕ, zero, suc, ◌+◌, ◌-◌, ◌/◌, ◌==◌, Bool, true, false, ◌&&◌, ◌||◌, not, Option, none, some, List,
  [], ◌∷◌, is_none, leb, update, Text, same_text, if◌then◌else◌, modify, gets, pure, raise_if,
  or_raise, ◌>>=◌, ◌>>◌,
}
use fastapi_base.Auth.Model.{
  User, Db, Action, invalid_two_factor_code, two_factor_not_enabled, invalid_credentials,
}

-- `last_counter is not None and candidate_counter <= last_counter`
abbrev pub is_consumed : Option ℕ → ℕ → Bool
is_consumed none counter = false
is_consumed (some last_counter) counter = leb counter last_counter

abbrev pub unless_consumed : Option ℕ → ℕ → Option ℕ
unless_consumed last_counter counter =
    if is_consumed last_counter counter then none else some counter

module _ (totp_at : Text → ℕ → Text) where
  -- the loop over `n` candidate counters, from `counter` on
  unfoldable pub walk_window : ℕ → ℕ → Text → Text → Option ℕ → Option ℕ
  walk_window zero counter secret code last_counter = none
  walk_window (suc n) counter secret code last_counter =
      let rest = walk_window n (suc counter) secret code last_counter in
      if same_text code (totp_at secret counter) then unless_consumed last_counter counter else rest

  -- `now` is in seconds, after the first minute of 1970, so that no counter is negative
  unfoldable pub verify_totp_with_replay_guard : ℕ → Text → Text → Option ℕ → Option ℕ
  unfolding walk_window
  verify_totp_with_replay_guard now secret code last_counter =
      walk_window 3 (now / 30 - 1) secret code last_counter

-- UserRepository.update: UPDATE users SET f WHERE id AND deleted_at IS NULL
abbrev pub is_live_user : ℕ → User → Bool
is_live_user user_id u = u.id == user_id && is_none u.deleted_at

abbrev pub update_user : ℕ → (User → User) → Action Unit
update_user user_id f =
    modify (λ db. record db { users = update (is_live_user user_id) f db.users })

abbrev pub with_counter : ℕ → User → User
with_counter counter u = record u { last_totp_counter = some counter }

module _ (decrypt : Text → Text) (totp_at : Text → ℕ → Text) where
  abbrev pub record_match : ℕ → Option ℕ → Action Bool
  record_match user_id none = pure false
  record_match user_id (some matched) = do update_user user_id (with_counter matched); pure true

  -- `decrypt_totp_secret(user.totp_secret) if user.totp_secret else ""`
  abbrev pub plaintext_of : Option Text → Text
  plaintext_of none = []
  plaintext_of (some []) = []
  plaintext_of (some (c ∷ secret)) = decrypt (c ∷ secret)

  abbrev pub match_code : ℕ → Text → Text → Option ℕ → Option ℕ
  match_code now [] code last_counter = none
  match_code now (c ∷ plaintext) code last_counter =
      verify_totp_with_replay_guard totp_at now (c ∷ plaintext) code last_counter

  unfoldable pub consume_code : ℕ → User → Text → Action Bool
  consume_code now user code =
      record_match user.id
        (match_code now (plaintext_of user.totp_secret) code user.last_totp_counter)

  -- `not user.totp_secret`
  abbrev pub has_no_secret : Option Text → Bool
  has_no_secret none = true
  has_no_secret (some []) = true
  has_no_secret (some (c ∷ s)) = false

  unfoldable pub verify : ℕ → User → Text → Action Bool
  unfolding consume_code
  verify now user totp_code =
      if not user.is_2fa_enabled || has_no_secret user.totp_secret
      then pure false
      else consume_code now user totp_code

  unfoldable pub enable : ℕ → User → Text → Action Unit
  unfolding consume_code
  enable now user totp_code = do
    raise_if (has_no_secret user.totp_secret) invalid_two_factor_code
    consumed ← consume_code now user totp_code
    raise_if (not consumed) invalid_two_factor_code
    update_user user.id (λ u. record u { is_2fa_enabled = true })

  unfoldable pub disable : (Text → Text → Bool) → ℕ → User → Text → Text → Action Unit
  unfolding consume_code
  disable verify_password now user password totp_code = do
    raise_if (not user.is_2fa_enabled || has_no_secret user.totp_secret) two_factor_not_enabled
    raise_if (not (verify_password password user.hashed_password)) invalid_credentials
    consumed ← consume_code now user totp_code
    raise_if (not consumed) invalid_two_factor_code
    update_user user.id
        (λ u. record u { is_2fa_enabled = false; totp_secret = none; last_totp_counter = none })

-- `secret` is pyotp's random secret
unfoldable pub setup : (Text → Text) → Text → User → Action Text
setup encrypt secret user = do
  update_user user.id (λ u. record u {
    totp_secret = some (encrypt secret);
    is_2fa_enabled = false;
    last_totp_counter = none;
  })
  pure secret

-- ===== src/Auth/Model.antt =====
-- The rows of apps/auth/models.py and the columns of `User` that authentication uses, with the errors
-- that its services raise. A digest is a number, since digests are only compared. The columns that no
-- operation reads (user agent and address of a token, the one purpose of a code) are left out.
use fastapi_base.Prelude.{ℕ, Bool, Option, List, Call, Text}

pub record User : Type 0 where
  pub id : ℕ
  pub email : Text
  pub is_active : Bool
  pub email_verified_at : Option ℕ
  pub hashed_password : Text
  pub totp_secret : Option Text
  pub is_2fa_enabled : Bool
  pub last_totp_counter : Option ℕ
  pub deleted_at : Option ℕ

pub record RefreshToken : Type 0 where
  pub id : ℕ
  pub user_id : ℕ
  pub token_hash : ℕ
  pub expires_at : ℕ
  pub revoked_at : Option ℕ
  pub replaced_by_id : Option ℕ

pub record EmailVerification : Type 0 where
  pub id : ℕ
  pub user_id : ℕ
  pub code_hash : ℕ
  pub expires_at : ℕ
  pub used_at : Option ℕ
  pub attempts : ℕ
  pub created_at : ℕ

pub record Db : Type 0 where
  pub users : List User
  pub refresh_tokens : List RefreshToken
  pub email_verifications : List EmailVerification

pub data Error : Type 0 where
  invalid_otp token_expired invalid_token refresh_token_revoked user_not_found : Error
  invalid_two_factor_code two_factor_not_enabled invalid_credentials : Error
  -- a constraint of the table refused the row
  integrity_error : Error

abbrev pub Action : Type 0 → Type 0
Action = Call Db Error

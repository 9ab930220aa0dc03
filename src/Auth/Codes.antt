-- ===== src/Auth/Codes.antt =====
-- EmailVerificationRepository (apps/auth/repository.py) and EmailVerificationService.verify and resend
-- (apps/auth/services/_email_verification.py). `hash_otp_code` is SHA-256 of a code; sending the mail
-- changes no row.
pub mod Guesses
use fastapi_base.Prelude.{
  ℕ, ◌+◌, ◌==◌, Bool, true, false, ◌&&◌, ◌||◌, not, Option, none, some, List, [], ◌∷◌, ◌++◌,
  is_none, leb, ltb, select, first, update, order_by, Text, same_text, if◌then◌else◌, modify, gets,
  pure, raise, raise_if, or_raise, ◌>>=◌, ◌>>◌,
}
use fastapi_base.Auth.Model.{User, EmailVerification, Db, Action, invalid_otp}
use fastapi_base.Auth.Totp.{update_user}

-- UserService.get_by_email_or_username by email
abbrev pub has_email : Text → User → Bool
has_email email u = same_text u.email email && is_none u.deleted_at

unfoldable pub find_by_email : Text → Db → Option User
find_by_email email db = first (has_email email) db.users

abbrev pub is_active_for : ℕ → ℕ → EmailVerification → Bool
is_active_for now user_id o = o.user_id == user_id && is_none o.used_at && ltb now o.expires_at

-- the newest row: ORDER BY created_at DESC LIMIT 1
unfoldable pub find_active_for_user : ℕ → ℕ → Db → Option EmailVerification
find_active_for_user now user_id db =
    first (λ o. true)
      (order_by (λ o p. leb p.created_at o.created_at)
        (select (is_active_for now user_id) db.email_verifications))

unfoldable pub invalidate_active_for_user : ℕ → ℕ → Action Unit
invalidate_active_for_user now user_id = modify (λ db. record db {
  email_verifications =
      update (λ o. o.user_id == user_id && is_none o.used_at) (λ o. record o { used_at = some now })
        db.email_verifications;
})

abbrev pub is_consumable : ℕ → ℕ → ℕ → EmailVerification → Bool
is_consumable now otp_id max_attempts o =
    o.id == otp_id && is_none o.used_at && ltb now o.expires_at && ltb o.attempts max_attempts

abbrev pub attempted : EmailVerification → EmailVerification
attempted o = record o { attempts = o.attempts + 1 }

-- The UPDATE, and the row of `otp` with the attempts that it returned; none where it changed no row.
unfoldable pub consume_attempt_atomic :
    ℕ → EmailVerification → ℕ → Action (Option EmailVerification)
consume_attempt_atomic now otp max_attempts = do
  row ← gets (λ db. first (is_consumable now otp.id max_attempts) db.email_verifications)
  modify (λ db. record db {
    email_verifications =
        update (is_consumable now otp.id max_attempts) attempted db.email_verifications;
  })
  pure (elim row [ none ↦ none | some o ↦ some (record otp { attempts = o.attempts + 1 }) ])

abbrev pub mark_used : ℕ → ℕ → Action Unit
mark_used now otp_id = modify (λ db. record db {
  email_verifications =
      update (λ o. o.id == otp_id) (λ o. record o { used_at = some now }) db.email_verifications;
})

abbrev pub mark_used_if : Bool → ℕ → ℕ → Action Unit
mark_used_if true now otp_id = mark_used now otp_id
mark_used_if false now otp_id = pure tt

abbrev pub activated : ℕ → User → User
activated now u = record u { is_active = true; email_verified_at = some now }

module _ (hash_otp_code : Text → ℕ) (max_attempts : ℕ) where
  unfoldable pub check_code : ℕ → User → EmailVerification → Text → Action User
  check_code now user otp code =
      if not (otp.code_hash == hash_otp_code code)
      then (do mark_used_if (leb max_attempts otp.attempts) now otp.id; raise invalid_otp)
      else (do mark_used now otp.id; update_user user.id (activated now); pure (activated now user))

  unfoldable pub verify : ℕ → Text → Text → Action User
  unfolding check_code
  verify now email code = do
    found ← gets (find_by_email email)
    user ← or_raise found invalid_otp
    active ← gets (find_active_for_user now user.id)
    otp ← or_raise active invalid_otp
    consumed ← consume_attempt_atomic now otp max_attempts
    counted ← or_raise consumed invalid_otp
    check_code now user counted code

-- the new row of issue_and_send
unfoldable pub issue_and_send : EmailVerification → Action Unit
issue_and_send otp =
    modify (λ db. record db { email_verifications = db.email_verifications ++ otp ∷ [] })

unfoldable pub resend : ℕ → Text → (User → EmailVerification) → Action Unit
resend now email new_otp db = elim (find_by_email email db) [
  | none ↦ pure tt db
  | some user ↦
      (if not (is_none user.email_verified_at)
          then pure tt
          else (invalidate_active_for_user now user.id >> issue_and_send (new_otp user)))
        db
]

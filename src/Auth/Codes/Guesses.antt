-- ===== src/Auth/Codes/Guesses.antt =====
-- What guessing an e-mail code costs.
use fastapi_base.Prelude.{
  ℕ, ◌==◌, ◌≡◌, refl, Bool, true, false, some, List, [], ◌∷◌, All, Text, settled, ok, err,
  Bool-cases, Option-cases, inl, inr, select, order_by, first-All, All-order_by, All-select, ◌+◌,
  first, leb, Result,
}
use fastapi_base.Auth.Model.{User, EmailVerification, Db, invalid_otp}
use fastapi_base.Auth.Codes.{
  verify, find_by_email, find_active_for_user, consume_attempt_atomic, is_consumable, is_active_for,
  check_code,
}

-- requests to verify one address with one code after the other, each at its time
unfoldable pub guess : (Text → ℕ) → ℕ → Text → List (ℕ × Text) → Db → Db
guess hash_otp_code max_attempts email [] db = db
guess hash_otp_code max_attempts email ((now, code) ∷ rest) db =
    guess hash_otp_code max_attempts email rest
      (settled db (verify hash_otp_code max_attempts now email code db))

-- A code that no row has.
abbrev pub IsWrong : (Text → ℕ) → Db → ℕ × Text → Type 0
IsWrong hash_otp_code db (now, code) =
    All (λ o. (o.code_hash == hash_otp_code code) ≡ false) db.email_verifications

wrong_code :
    (hash_otp_code : Text → ℕ) (max_attempts now : ℕ) (user : User) (otp : EmailVerification)
    (code : Text) (db : Db)
    → (otp.code_hash == hash_otp_code code) ≡ false
    → (check_code hash_otp_code max_attempts now user otp code db).0 ≡ err invalid_otp
unfolding check_code
wrong_code hash_otp_code max_attempts now user otp code db wrong =
    elim (Bool-cases (leb max_attempts otp.attempts)) [
      | inl e ↦ rw (wrong, e) refl
      | inr e ↦ rw (wrong, e) refl
    ]

-- The code that is looked up is one of the table's.
active-wrong :
    (hash_otp_code : Text → ℕ) (now now' user_id : ℕ) (code : Text) (db : Db)
    (otp : EmailVerification)
    → IsWrong hash_otp_code db (now', code)
    → find_active_for_user now user_id db ≡ some otp
    → (otp.code_hash == hash_otp_code code) ≡ false
unfolding find_active_for_user
active-wrong hash_otp_code now now' user_id code db otp wrong found =
    let P : EmailVerification → Type 0 = λ o. (o.code_hash == hash_otp_code code) ≡ false in
    let rows = select (is_active_for now user_id) db.email_verifications in
    let newest : EmailVerification → EmailVerification → Bool =
      λ o p. leb p.created_at o.created_at in
    first-All P (λ o. true) (order_by newest rows)
      (All-order_by newest P rows
        (All-select P (is_active_for now user_id) db.email_verifications wrong))
      found

verify_wrong :
    (hash_otp_code : Text → ℕ) (max_attempts now : ℕ) (email code : Text) (db : Db)
    → IsWrong hash_otp_code db (now, code)
    → (verify hash_otp_code max_attempts now email code db).0 ≡ err invalid_otp
unfolding verify consume_attempt_atomic
verify_wrong hash_otp_code max_attempts now email code db wrong =
    elim (Option-cases (find_by_email email db)) [
      | inl e ↦ rw e refl
      | inr (user, e) ↦ elim (Option-cases (find_active_for_user now user.id db)) [
        | inl f ↦ rw (e, f) refl
        | inr (otp, f) ↦
            elim (Option-cases
              (first (is_consumable now otp.id max_attempts) db.email_verifications)) [
                | inl g ↦ rw (e, f, g) refl
                | inr (row, g) ↦
                    rw (e, f, g)
                      (wrong_code hash_otp_code max_attempts now user
                        (record otp { attempts = row.attempts + 1 }) code _
                        (active-wrong hash_otp_code now now user.id code db otp wrong f))
              ]
      ]
    ]

settled_error :
    {S E A : Type 0} (s : S) (r : Result E A × S) (e : E) → r.0 ≡ err e → settled s r ≡ s
settled_error s (ok a, s') e h = cc
settled_error s (err e', s') e h = refl

-- Any number of requests with wrong codes, at any times, leaves the database as it was: the attempts
-- that consume_attempt_atomic counts do not outlive the request that is refused.
pub guess_unlimited :
    (hash_otp_code : Text → ℕ) (max_attempts : ℕ) (email : Text) (guesses : List (ℕ × Text))
    (db : Db)
    → All (IsWrong hash_otp_code db) guesses
    → guess hash_otp_code max_attempts email guesses db ≡ db
unfolding guess
guess_unlimited hash_otp_code max_attempts email [] db wrong = refl
guess_unlimited hash_otp_code max_attempts email ((now, code) ∷ rest) db wrong =
    let r = verify hash_otp_code max_attempts now email code db in
    rw
      (settled_error db r invalid_otp
        (verify_wrong hash_otp_code max_attempts now email code db wrong.0))
      (guess_unlimited hash_otp_code max_attempts email rest db wrong.1)

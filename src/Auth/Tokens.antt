-- ===== src/Auth/Tokens.antt =====
-- RefreshTokenRepository (apps/auth/repository.py) and TokenService
-- (apps/auth/services/_tokens.py). `decode_token` and `hash_token` of apps/auth/security are arguments.
pub mod Inactive
pub mod Rotation
use fastapi_base.Prelude.{
  ℕ, ◌==◌, Bool, true, false, ◌&&◌, ◌||◌, not, Option, none, some, List, [], ◌∷◌, ◌++◌, is_none,
  ltb, first, any, update, Text, if◌then◌else◌, Result, ok, err, lift, modify, gets, pure, raise,
  or_raise, ◌>>=◌, ◌>>◌, raise_if,
}
use fastapi_base.Auth.Model.{
  User, RefreshToken, Db, Error, Action, invalid_token, refresh_token_revoked, user_not_found,
  integrity_error,
}
use fastapi_base.Auth.Totp.{is_live_user}

abbrev pub has_hash : ℕ → RefreshToken → Bool
has_hash token_hash t = t.token_hash == token_hash

abbrev pub is_active_hash : ℕ → ℕ → RefreshToken → Bool
is_active_hash now token_hash t =
    t.token_hash == token_hash && is_none t.revoked_at && ltb now t.expires_at

unfoldable pub find_active_by_hash : ℕ → ℕ → Db → Option RefreshToken
find_active_by_hash now token_hash db = first (is_active_hash now token_hash) db.refresh_tokens

unfoldable pub find_by_hash : ℕ → Db → Option RefreshToken
find_by_hash token_hash db = first (has_hash token_hash) db.refresh_tokens

abbrev pub revoked : ℕ → RefreshToken → RefreshToken
revoked now t = record t { revoked_at = some now }

abbrev pub is_unrevoked_of : ℕ → RefreshToken → Bool
is_unrevoked_of user_id t = t.user_id == user_id && is_none t.revoked_at

unfoldable pub revoke_all_for_user : ℕ → ℕ → Action Unit
revoke_all_for_user now user_id = modify (λ db. record db {
  refresh_tokens = update (is_unrevoked_of user_id) (revoked now) db.refresh_tokens;
})

abbrev pub has_token_id : ℕ → RefreshToken → Bool
has_token_id token_id t = t.id == token_id

-- INSERT INTO refresh_tokens: the primary key and the unique hash
unfoldable pub add_token : RefreshToken → Action Unit
add_token t db =
    if any (has_token_id t.id) db.refresh_tokens || any (has_hash t.token_hash) db.refresh_tokens
    then (err integrity_error, db)
    else (ok tt, record db { refresh_tokens = db.refresh_tokens ++ t ∷ [] })

-- UserService.find_or_raise
unfoldable pub find_user : ℕ → Db → Option User
find_user user_id db = first (λ u. u.id == user_id && is_none u.deleted_at) db.users

-- what generate_refresh_token and the model's defaults give
pub record Minted : Type 0 where
  pub token_id : ℕ
  pub refresh_raw : Text
  pub refresh_expires_at : ℕ

pub record TokenPair : Type 0 where
  pub refresh_token : Text
  pub subject : ℕ

module _ (hash_token : Text → ℕ) where
  abbrev pub new_token : Minted → ℕ → RefreshToken
  new_token minted user_id = record {
    id = minted.token_id;
    user_id = user_id;
    token_hash = hash_token minted.refresh_raw;
    expires_at = minted.refresh_expires_at;
    revoked_at = none;
    replaced_by_id = none;
  }

  unfoldable pub issue_pair : Minted → User → Action (TokenPair × RefreshToken)
  issue_pair minted user = do
    add_token (new_token minted user.id)
    pure
        (record { refresh_token = minted.refresh_raw; subject = user.id }, new_token minted user.id)

  abbrev pub rotated : ℕ → ℕ → RefreshToken → RefreshToken
  rotated now new_id t = record t { revoked_at = some now; replaced_by_id = some new_id }

  -- the end of refresh, for an active row; the token's subject is none where it is no UUID
  unfoldable pub rotate : ℕ → Minted → RefreshToken → Option ℕ → Action TokenPair
  unfolding issue_pair
  rotate now minted existing subject = do
    user_id ← or_raise subject invalid_token
    found ← gets (find_user user_id)
    user ← or_raise found user_not_found
    issued ← issue_pair minted user
    modify (λ db. record db {
      refresh_tokens =
          update (has_token_id existing.id) (rotated now issued.1.id) db.refresh_tokens;
    })
    pure issued.0

  -- reuse detection, for a token that is not active
  unfoldable pub refuse_reused : ℕ → Option RefreshToken → Action TokenPair
  refuse_reused now none = raise refresh_token_revoked
  refuse_reused now (some previous) = do
    revoke_all_for_user now previous.user_id
    raise refresh_token_revoked

  abbrev pub rotate_or_refuse : ℕ → Minted → ℕ → Option ℕ → Option RefreshToken → Action TokenPair
  rotate_or_refuse now minted token_hash subject (some existing) =
      rotate now minted existing subject
  rotate_or_refuse now minted token_hash subject none = do
    previous ← gets (find_by_hash token_hash)
    refuse_reused now previous

  -- `decode_token` gives the token's subject, or the error that the token is refused with
  unfoldable pub refresh :
      (ℕ → Text → Result Error (Option ℕ)) → ℕ → Minted → Text → Action TokenPair
  unfolding rotate refuse_reused
  refresh decode_token now minted raw = do
    subject ← lift (decode_token now raw)
    existing ← gets (find_active_by_hash now (hash_token raw))
    rotate_or_refuse now minted (hash_token raw) subject existing

  abbrev pub revoke_found : ℕ → Option RefreshToken → Action Unit
  revoke_found now none = pure tt
  revoke_found now (some existing) = modify (λ db. record db {
    refresh_tokens = update (has_token_id existing.id) (revoked now) db.refresh_tokens;
  })

  unfoldable pub logout : ℕ → Text → Action Unit
  logout now raw = do
    existing ← gets (find_active_by_hash now (hash_token raw))
    revoke_found now existing

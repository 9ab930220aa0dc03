-- ===== src/Auth/Tokens/Inactive.antt =====
-- When no refresh token with a given hash is active.
use fastapi_base.Prelude.{
  is_none, ℕ, ◌≤◌, ◌==◌, ◌≡◌, refl, Bool, true, false, none, some, List, [], ◌∷◌, ◌++◌, arith,
  Bool-cases, inl, inr, first, any, count, update, first_satisfies, ==_refl,
}
use fastapi_base.Workspace.Counting.{count-pos_of_first}
use fastapi_base.Auth.Model.{RefreshToken}
use fastapi_base.Auth.Tokens.{is_active_hash, has_hash, has_token_id}

not_active :
    (now h i : ℕ) (f : RefreshToken → RefreshToken) (ts : List RefreshToken)
    → ((t : RefreshToken) → (f t).token_hash ≡ t.token_hash)
    → count (has_hash h) ts ≡ 0
    → any (is_active_hash now h) (update (has_token_id i) f ts) ≡ false
not_active now h i f [] same zero_hash = refl
not_active now h i f (t ∷ ts) same zero_hash = ground (arith, same t, not_active now h i f ts same)

-- After an update of the active row that revokes it, no row with its hash is active, at any time.
module _ (f : RefreshToken → RefreshToken)
    (same_hash : (t : RefreshToken) → (f t).token_hash ≡ t.token_hash)
    (ended : (t : RefreshToken) → is_none (f t).revoked_at ≡ false) where
  pub ended-inactive :
      (now now' h : ℕ) (t : RefreshToken) (ts : List RefreshToken)
      → first (is_active_hash now h) ts ≡ some t
      → count (has_hash h) ts ≤ 1
      → any (is_active_hash now' h) (update (has_token_id t.id) f ts) ≡ false
  ended-inactive now now' h t [] found one = cc
  ended-inactive now now' h t (x ∷ ts) found one = elim (Bool-cases (is_active_hash now h x)) [
    | inl e ↦
        let same : x ≡ t = cc (rw e at found) in
        let ids : (x.id == t.id) ≡ true = rw same (==_refl t.id) in
        let zero_hash : count (has_hash h) ts ≡ 0 = ground (arith, e, one) in
        ground (arith, ids, ended x, not_active now' h t.id f ts same_hash zero_hash)
    | inr e ↦
        let found' : first (is_active_hash now h) ts ≡ some t = rw e at found in
        let hashed : has_hash h t ≡ true =
          ground (arith, first_satisfies (is_active_hash now h) ts found') in
        let here = count-pos_of_first (is_active_hash now h) (has_hash h) ts t found' hashed in
        let other : has_hash h x ≡ false = ground (arith, here, one) in
        let one' : count (has_hash h) ts ≤ 1 = omega (arith, one) in
        ground (arith, other, same_hash x, ended-inactive now now' h t ts found' one')
  ]

pub first-append :
    (p : RefreshToken → Bool) (xs ys : List RefreshToken) (t : RefreshToken)
    → first p xs ≡ some t
    → first p (xs ++ ys) ≡ some t
first-append p [] ys t found = cc
first-append p (x ∷ xs) ys t found = elim (Bool-cases (p x)) [
  | inl e ↦ rw e (rw e at found)
  | inr e ↦ rw e (first-append p xs ys t (rw e at found))
]

pub first-none_of_not_any :
    (p : RefreshToken → Bool) (xs : List RefreshToken) → any p xs ≡ false → first p xs ≡ none
first-none_of_not_any p [] h = refl
first-none_of_not_any p (x ∷ xs) h = ground (arith, first-none_of_not_any p xs)

-- A token that is not active stays so.
pub inactive_later :
    (now now' h : ℕ) (ts : List RefreshToken)
    → now ≤ now'
    → first (is_active_hash now h) ts ≡ none
    → first (is_active_hash now' h) ts ≡ none
inactive_later now now' h [] later gone = refl
inactive_later now now' h (t ∷ ts) later gone = elim (Bool-cases (is_active_hash now h t)) [
  | inl e ↦ cc (rw e at gone)
  | inr e ↦
      let still : is_active_hash now' h t ≡ false = ground (arith, e, later) in
      rw still (inactive_later now now' h ts later (rw e at gone))
]

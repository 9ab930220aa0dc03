-- ===== src/Posts/Versions/Alone.antt =====
-- add_with_retry while no other session numbers versions.
use fastapi_base.Prelude.{
  ℕ, zero, suc, ◌≡◌, refl, Bool, true, false, ◌&&◌, not, is_none, [], any, arith, Bool-cases, inl,
  inr, ok, err, Result,
}
use fastapi_base.Posts.Model.{PostVersion, State, Error}
use fastapi_base.Posts.Repository.{has_post_id, on_db}
use fastapi_base.Posts.Versions.{is_accepted, with_version, next_row, rollback, add_with_retry}
use fastapi_base.Posts.Versions.Retry.{if_either, next_row-is_accepted}

abbrev pub satisfies_own_checks : PostVersion → Bool
satisfies_own_checks row =
    not (is_none row.content_hash) && not (row.is_published_snapshot && row.is_restored)

abbrev is_ok : Result Error PostVersion → Bool
is_ok (ok v) = true
is_ok (err e) = false

add_with_retry_refused :
    (attempts : ℕ) (row : PostVersion) (s : State)
    → satisfies_own_checks row ≡ false
    → is_ok (add_with_retry attempts [] row s).0 ≡ false
unfolding add_with_retry
add_with_retry_refused zero row s checks = refl
add_with_retry_refused (suc attempts) row s checks =
    let refused : is_accepted (next_row row s.db) s.db ≡ false = ground (arith, checks) in
    let retried = add_with_retry_refused attempts row (rollback s) checks in
    rw refused (if_either (λ r. is_ok r.0 ≡ false) s.in_block _ _ (λ _. refl) (λ _. retried))

-- An insert that returns took the first number that it tried.
pub add_with_retry-alone :
    (attempts : ℕ) (row v : PostVersion) (s : State)
    → any (has_post_id row.post_id) s.db.posts ≡ true
    → (add_with_retry (suc attempts) [] row s).0 ≡ ok v
    → ((add_with_retry (suc attempts) [] row s).1 ≡ on_db (with_version (next_row row s.db)) s)
      × (v ≡ next_row row s.db)
unfolding add_with_retry
add_with_retry-alone attempts row v s post returned = elim (Bool-cases (satisfies_own_checks row)) [
  | inl checks ↦
      let accepted = next_row-is_accepted row s.db checks post in
      rw accepted (refl, cc (rw accepted at returned))
  | inr checks ↦
      let refused = add_with_retry_refused (suc attempts) row s checks in
      cc (rw returned at refused)
]

pub add_with_retry-succeeds :
    (attempts : ℕ) (row : PostVersion) (s : State)
    → any (has_post_id row.post_id) s.db.posts ≡ true
    → satisfies_own_checks row ≡ true
    → add_with_retry (suc attempts) [] row s
      ≡ (ok (next_row row s.db), on_db (with_version (next_row row s.db)) s)
unfolding add_with_retry
add_with_retry-succeeds attempts row s post checks =
    rw (next_row-is_accepted row s.db checks post) refl

-- ===== src/Workspace/Counting.antt =====
-- How an update or a deletion of the row with a given id changes a count of rows.
use fastapi_base.Prelude.{
  ◌+◌, ◌≤◌, ◌≡◌, refl, ◌&&◌, Bool, true, false, some, List, [], ◌∷◌, arith, count, update, first,
  All, Bool-cases, inl, inr,
}

module _ {A : Type 0} where
  -- The rows that an update touches may leave the count, no others.
  pub count-update :
      (q p : A → Bool) (f : A → A) (xs : List A)
      → count q xs ≤ count q (update p f xs) + count (λ x. q x && p x) xs
  count-update q p f [] = omega arith
  count-update q p f (x ∷ xs) = ground (arith, count-update q p f xs)

  -- An update after which every counted row is still counted.
  pub count-update_grows :
      (q p : A → Bool) (f : A → A) (xs : List A)
      → ((x : A) → q x ≡ true → q (f x) ≡ true)
      → count q xs ≤ count q (update p f xs)
  count-update_grows q p f [] k = omega arith
  count-update_grows q p f (x ∷ xs) k = ground (arith, count-update_grows q p f xs k, k x)

  -- An update that changes no test changes no count.
  pub count-update_same :
      (q p : A → Bool) (f : A → A) (xs : List A)
      → ((x : A) → q (f x) ≡ q x)
      → count q (update p f xs) ≡ count q xs
  count-update_same q p f [] k = refl
  count-update_same q p f (x ∷ xs) k = ground (arith, count-update_same q p f xs k, k x)

  pub count_and : (q p : A → Bool) (xs : List A) → count (λ x. q x && p x) xs ≤ count p xs
  count_and q p [] = omega arith
  count_and q p (x ∷ xs) = ground (arith, count_and q p xs)

  pub count-pos_of_first :
      (r p : A → Bool) (xs : List A) (m : A) → first r xs ≡ some m → p m ≡ true → 1 ≤ count p xs
  count-pos_of_first r p [] m found h = cc
  count-pos_of_first r p (x ∷ xs) m found h = elim (Bool-cases (r x)) [
    | inl e ↦
        let same : x ≡ m = cc (rw e at found) in
        let here : p x ≡ true = rw same h in ground (arith, here)
    | inr e ↦ ground (arith, count-pos_of_first r p xs m (rw e at found) h)
  ]

  -- Where `p` names one row, and that row does not pass `q`, no row passes both.
  pub count_other :
      (r q p : A → Bool) (xs : List A) (m : A)
      → first r xs ≡ some m
      → p m ≡ true
      → q m ≡ false
      → count p xs ≤ 1
      → count (λ x. q x && p x) xs ≡ 0
  count_other r q p [] m found hp hq one = refl
  count_other r q p (x ∷ xs) m found hp hq one = elim (Bool-cases (r x)) [
    | inl e ↦
        let same : x ≡ m = cc (rw e at found) in
        let hp' : p x ≡ true = rw same hp in
        let hq' : q x ≡ false = rw same hq in ground (arith, hp', hq', count_and q p xs)
    | inr e ↦
        let found' : first r xs ≡ some m = rw e at found in
        ground (arith, count-pos_of_first r p xs m found' hp, count_other r q p xs m found' hp hq)
  ]

  pub count-zero_of_All : (q : A → Bool) (xs : List A) → All (λ x. q x ≡ false) xs → count q xs ≡ 0
  count-zero_of_All q [] h = refl
  count-zero_of_All q (x ∷ xs) h = ground (arith, h.0, count-zero_of_All q xs h.1)

-- ===== src/Prelude/Lists.antt =====
-- Lists read as tables: the statements `SELECT`, `COUNT(*)`, `EXISTS`, `UPDATE` and `DELETE` with
-- a WHERE clause as a Boolean test, and the laws that the components share.
use Prim.Native.Nat.{ℕ, zero, suc, ◌+◌, ◌-◌, ◌≤◌}
use mathlib.Core.Path.{◌≡◌, refl, sym}
use mathlib.Core.Bool.{Bool, true, false, ◌&&◌, ◌||◌}
use mathlib.Core.Option.{Option, none, some}
use mathlib.Core.List.{List, [], ◌∷◌, ◌++◌, map}
use native.Mathlib.Omega.{arith}
use fastapi_base.Prelude.Tests.{leb, if◌then◌else◌, Bool-cases}
use mathlib.Core.Logic.{inl, inr}

-- a text, as its list of code points
abbrev pub Text : Type 0
Text = List ℕ

module _ {ℓ} {A : Type ℓ} where
  abbrev pub length : List A → ℕ
  length [] = 0
  length (x ∷ xs) = suc (length xs)

  abbrev pub take : ℕ → List A → List A
  take zero xs = []
  take (suc n) [] = []
  take (suc n) (x ∷ xs) = x ∷ take n xs

  abbrev pub drop : ℕ → List A → List A
  drop zero xs = xs
  drop (suc n) [] = []
  drop (suc n) (x ∷ xs) = drop n xs

  abbrev pub All {κ} : (A → Type κ) → List A → Type κ
  All P [] = Unit
  All P (x ∷ xs) = P x × All P xs

  -- SELECT * ... WHERE p
  abbrev pub select : (A → Bool) → List A → List A
  select p [] = []
  select p (x ∷ xs) = let rest = select p xs in if p x then x ∷ rest else rest

  -- SELECT ... WHERE p, the first row
  abbrev pub first : (A → Bool) → List A → Option A
  first p [] = none
  first p (x ∷ xs) = if p x then some x else first p xs

  -- SELECT COUNT(*) ... WHERE p
  abbrev pub count : (A → Bool) → List A → ℕ
  count p [] = 0
  count p (x ∷ xs) = (if p x then 1 else 0) + count p xs

  -- EXISTS (SELECT ... WHERE p)
  abbrev pub any : (A → Bool) → List A → Bool
  any p [] = false
  any p (x ∷ xs) = p x || any p xs

  -- DELETE ... WHERE p
  abbrev pub delete : (A → Bool) → List A → List A
  delete p [] = []
  delete p (x ∷ xs) = let rest = delete p xs in if p x then rest else x ∷ rest

  -- UPDATE ... SET f WHERE p
  abbrev pub update : (A → Bool) → (A → A) → List A → List A
  update p f [] = []
  update p f (x ∷ xs) = (if p x then f x else x) ∷ update p f xs

  pub length-take : (n : ℕ) (xs : List A) → length (take n xs) ≤ n
  length-take zero xs = omega arith
  length-take (suc n) [] = omega arith
  length-take (suc n) (x ∷ xs) = omega (arith, length-take n xs)

  pub length-take_min :
      (n : ℕ) (xs : List A) → length (take n xs) ≡ (if leb n (length xs) then n else length xs)
  length-take_min zero xs = ground arith
  length-take_min (suc n) [] = ground arith
  length-take_min (suc n) (x ∷ xs) = ground (arith, length-take_min n xs)

  pub length-drop : (n : ℕ) (xs : List A) → length (drop n xs) ≡ length xs - n
  length-drop zero xs = omega arith
  length-drop (suc n) [] = omega arith
  length-drop (suc n) (x ∷ xs) = omega (arith, length-drop n xs)

  pub update-eq-map :
      (p : A → Bool) (f : A → A) (xs : List A)
      → update p f xs ≡ map (λ x. if p x then f x else x) xs
  update-eq-map p f [] = refl
  update-eq-map p f (x ∷ xs) = rw (update-eq-map p f xs)

  pub count-append : (p : A → Bool) (xs ys : List A) → count p (xs ++ ys) ≡ count p xs + count p ys
  count-append p [] ys = omega arith
  count-append p (x ∷ xs) ys = omega (arith, count-append p xs ys)

  pub count-eq-length-select : (p : A → Bool) (xs : List A) → count p xs ≡ length (select p xs)
  count-eq-length-select p [] = refl
  count-eq-length-select p (x ∷ xs) = ground (arith, count-eq-length-select p xs)

  pub count-delete_self : (p : A → Bool) (xs : List A) → count p (delete p xs) ≡ 0
  count-delete_self p [] = refl
  count-delete_self p (x ∷ xs) = ground (arith, count-delete_self p xs)

  pub count-delete :
      (q p : A → Bool) (xs : List A)
      → count q (delete p xs) + count (λ x. q x && p x) xs ≡ count q xs
  count-delete q p [] = omega arith
  count-delete q p (x ∷ xs) = ground (arith, count-delete q p xs)

  pub count_ext : (p q : A → Bool) (xs : List A) → ((x : A) → p x ≡ q x) → count p xs ≡ count q xs
  count_ext p q [] h = refl
  count_ext p q (x ∷ xs) h = rw (h x, count_ext p q xs h)

  pub count-pos_of_any : (p : A → Bool) (xs : List A) → any p xs ≡ true → 1 ≤ count p xs
  count-pos_of_any p [] h = cc
  count-pos_of_any p (x ∷ xs) h = ground (arith, count-pos_of_any p xs)

  pub count-zero_of_not_any : (p : A → Bool) (xs : List A) → any p xs ≡ false → count p xs ≡ 0
  count-zero_of_not_any p [] h = refl
  count-zero_of_not_any p (x ∷ xs) h = ground (arith, count-zero_of_not_any p xs)

  pub first-map :
      (p : A → Bool) (f : A → A) (xs : List A) (x : A)
      → ((y : A) → p (f y) ≡ p y)
      → first p xs ≡ some x
      → first p (map f xs) ≡ some (f x)
  first-map p f [] x k h = cc
  first-map p f (y ∷ ys) x k h = elim (Bool-cases (p y)) [
    | inl e ↦ rw (k y, e) (ground (arith, e))
    | inr e ↦ rw (k y, e) (first-map p f ys x k (rw e at h))
  ]

  -- An update that keeps the test is seen by the look-up.
  pub first-update :
      (p : A → Bool) (f : A → A) (xs : List A) (x : A)
      → ((y : A) → p (f y) ≡ p y)
      → first p xs ≡ some x
      → first p (update p f xs) ≡ some (f x)
  first-update p f [] x k h = cc
  first-update p f (y ∷ ys) x k h = elim (Bool-cases (p y)) [
    | inl e ↦ rw (e, k y, e) (ground (arith, e))
    | inr e ↦ rw (e, e) (first-update p f ys x k (rw e at h))
  ]

  -- An update by another test that keeps the first one's answers is seen by its look-up.
  pub first-update_kept :
      (q p : A → Bool) (f : A → A) (xs : List A) (x : A)
      → ((y : A) → q (f y) ≡ q y)
      → first q xs ≡ some x
      → first q (update p f xs) ≡ some (if p x then f x else x)
  first-update_kept q p f [] x k h = cc
  first-update_kept q p f (y ∷ ys) x k h = elim (Bool-cases (q y)) [
    | inl e ↦
        let same : y ≡ x = cc (rw e at h) in
        elim (Bool-cases (p y)) [
          | inl t ↦ rw (sym same, t, k y, e) refl
          | inr t ↦ rw (sym same, t, e) refl
        ]
    | inr e ↦
        let rest = first-update_kept q p f ys x k (rw e at h) in
        elim (Bool-cases (p y)) [ inl t ↦ rw (t, k y, e) rest | inr t ↦ rw (t, e) rest ]
  ]

  pub any-update :
      (p q : A → Bool) (f : A → A) (xs : List A)
      → ((y : A) → p (f y) ≡ p y)
      → any p (update q f xs) ≡ any p xs
  any-update p q f [] k = refl
  any-update p q f (x ∷ xs) k = elim (Bool-cases (q x)) [
    | inl e ↦ rw (e, k x, any-update p q f xs k) refl
    | inr e ↦ rw (e, any-update p q f xs k) refl
  ]

  pub first-none-any : (p : A → Bool) (xs : List A) → first p xs ≡ none → any p xs ≡ false
  first-none-any p [] h = refl
  first-none-any p (x ∷ xs) h = elim (Bool-cases (p x)) [
    | inl e ↦ cc (rw e at h)
    | inr e ↦ ground (arith, e, first-none-any p xs (rw e at h))
  ]

  pub first-append_new :
      (p : A → Bool) (xs : List A) (x : A)
      → first p xs ≡ none
      → p x ≡ true
      → first p (xs ++ x ∷ []) ≡ some x
  first-append_new p [] x h new = rw new refl
  first-append_new p (y ∷ ys) x h new = elim (Bool-cases (p y)) [
    | inl e ↦ cc (rw e at h)
    | inr e ↦ rw e (first-append_new p ys x (rw e at h) new)
  ]

  pub select-append :
      (p : A → Bool) (xs ys : List A) → select p (xs ++ ys) ≡ select p xs ++ select p ys
  select-append p [] ys = refl
  select-append p (x ∷ xs) ys = elim (Bool-cases (p x)) [
    | inl e ↦ rw (e, select-append p xs ys)
    | inr e ↦ rw (e, select-append p xs ys)
  ]

  pub any-append : (p : A → Bool) (xs ys : List A) → any p (xs ++ ys) ≡ (any p xs || any p ys)
  any-append p [] ys = refl
  any-append p (x ∷ xs) ys = ground (arith, any-append p xs ys)

  pub delete-append :
      (p : A → Bool) (xs ys : List A) → delete p (xs ++ ys) ≡ delete p xs ++ delete p ys
  delete-append p [] ys = refl
  delete-append p (x ∷ xs) ys = elim (Bool-cases (p x)) [
    | inl e ↦ rw (e, delete-append p xs ys)
    | inr e ↦ rw (e, delete-append p xs ys)
  ]

  pub delete_none : (p : A → Bool) (xs : List A) → any p xs ≡ false → delete p xs ≡ xs
  delete_none p [] h = refl
  delete_none p (x ∷ xs) h = elim (Bool-cases (p x)) [
    | inl e ↦ ground (arith, e)
    | inr e ↦ rw (e, delete_none p xs (ground (arith, e)))
  ]

  pub first_satisfies : (p : A → Bool) (xs : List A) {x : A} → first p xs ≡ some x → p x ≡ true
  first_satisfies p [] h = cc
  first_satisfies p (y ∷ xs) {x} h = elim (Bool-cases (p y)) [
    | inl e ↦ ground (arith, e)
    | inr e ↦ first_satisfies p xs (rw e at h)
  ]

pub map_same : {A : Type 0} (f : A → A) (xs : List A) → ((x : A) → f x ≡ x) → map f xs ≡ xs
map_same f [] h = refl
map_same f (x ∷ xs) h = rw (h x, map_same f xs h)

module _ {ℓ κ} {A : Type ℓ} (P : A → Type κ) where
  pub All-append : (xs ys : List A) → All P xs → All P ys → All P (xs ++ ys)
  All-append [] ys hx hy = hy
  All-append (x ∷ xs) ys hx hy = (hx.0, All-append xs ys hx.1 hy)

  pub All-delete : (p : A → Bool) (xs : List A) → All P xs → All P (delete p xs)
  All-delete p [] h = tt
  All-delete p (x ∷ xs) h = elim (Bool-cases (p x)) [
    | inl e ↦ rw e (All-delete p xs h.1)
    | inr e ↦ rw e (h.0, All-delete p xs h.1)
  ]

  pub All-select : (p : A → Bool) (xs : List A) → All P xs → All P (select p xs)
  All-select p [] h = tt
  All-select p (x ∷ xs) h = elim (Bool-cases (p x)) [
    | inl e ↦ rw e (h.0, All-select p xs h.1)
    | inr e ↦ rw e (All-select p xs h.1)
  ]

  pub All-update :
      (p : A → Bool) (f : A → A) (xs : List A)
      → ((x : A) → P x → P (f x))
      → All P xs
      → All P (update p f xs)
  All-update p f [] k h = tt
  All-update p f (x ∷ xs) k h = elim (Bool-cases (p x)) [
    | inl e ↦ rw e (k x h.0, All-update p f xs k h.1)
    | inr e ↦ rw e (h.0, All-update p f xs k h.1)
  ]

  pub All-drop : (n : ℕ) (xs : List A) → All P xs → All P (drop n xs)
  All-drop zero xs h = h
  All-drop (suc n) [] h = tt
  All-drop (suc n) (x ∷ xs) h = All-drop n xs h.1

  pub All-take : (n : ℕ) (xs : List A) → All P xs → All P (take n xs)
  All-take zero xs h = tt
  All-take (suc n) [] h = tt
  All-take (suc n) (x ∷ xs) h = (h.0, All-take n xs h.1)

  pub first-All : (p : A → Bool) (xs : List A) {x : A} → All P xs → first p xs ≡ some x → P x
  first-All p [] h e = cc
  first-All p (y ∷ xs) h e = elim (Bool-cases (p y)) [
    | inl t ↦ ground (arith, t)
    | inr t ↦ first-All p xs h.1 (rw t at e)
  ]

pub All-map {ℓ κ μ} :
    {A : Type ℓ} (P : A → Type κ) (Q : A → Type μ) (f : A → A) (xs : List A)
    → ((x : A) → P x → Q (f x))
    → All P xs
    → All Q (map f xs)
All-map P Q f [] k h = tt
All-map P Q f (x ∷ xs) k h = (k x h.0, All-map P Q f xs k h.1)

pub All-imp {ℓ κ μ} :
    {A : Type ℓ} (P : A → Type κ) (Q : A → Type μ) (xs : List A)
    → ((x : A) → P x → Q x)
    → All P xs
    → All Q xs
All-imp P Q [] k h = tt
All-imp P Q (x ∷ xs) k h = (k x h.0, All-imp P Q xs k h.1)

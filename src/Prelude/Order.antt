-- ===== src/Prelude/Order.antt =====
-- `ORDER BY`, `LIMIT` and `OFFSET` over a list, and look-ups in a dict keyed by numbers.
use Prim.Native.Nat.{ℕ, suc}
use mathlib.Core.Path.{◌≡◌, refl}
use mathlib.Core.Logic.{inl, inr}
use mathlib.Core.Bool.{Bool, true, false, ◌&&◌}
use mathlib.Core.Option.{Option, none, some}
use mathlib.Core.List.{List, [], ◌∷◌}
use native.Mathlib.Omega.{arith}
use fastapi_base.Prelude.Tests.{if◌then◌else◌, ◌==◌, Bool-cases}
use fastapi_base.Prelude.Lists.{All, All-imp, length, Text}

-- `==` of two texts
abbrev pub same_text : Text → Text → Bool
same_text [] [] = true
same_text [] (d ∷ t) = false
same_text (c ∷ s) [] = false
same_text (c ∷ s) (d ∷ t) = c == d && same_text s t

-- `d.get(k)` on a dict with number keys
abbrev pub get {ℓ} : {A : Type ℓ} → ℕ → List (ℕ × A) → Option A
get k [] = none
get k ((j, v) ∷ d) = if j == k then some v else get k d

module _ {ℓ} {A : Type ℓ} (le : A → A → Bool) where
  -- Puts a row behind those that may stand before it.
  abbrev pub insert_by : A → List A → List A
  insert_by x [] = x ∷ []
  insert_by x (y ∷ ys) = let rest = insert_by x ys in if le y x then y ∷ rest else x ∷ y ∷ ys

  -- ORDER BY; rows with equal keys keep an order that the program does not rely on.
  abbrev pub order_by : List A → List A
  order_by [] = []
  order_by (x ∷ xs) = insert_by x (order_by xs)

  abbrev pub IsSorted : List A → Type 0
  IsSorted [] = Unit
  IsSorted (x ∷ xs) = All (λ y. le x y ≡ true) xs × IsSorted xs

  length-insert_by : (x : A) (xs : List A) → length (insert_by x xs) ≡ suc (length xs)
  length-insert_by x [] = refl
  length-insert_by x (y ∷ ys) = ground (arith, length-insert_by x ys)

  pub length-order_by : (xs : List A) → length (order_by xs) ≡ length xs
  length-order_by [] = refl
  length-order_by (x ∷ xs) = omega (arith, length-insert_by x (order_by xs), length-order_by xs)

  pub All-insert_by {κ} :
      (P : A → Type κ) (x : A) (xs : List A) → P x → All P xs → All P (insert_by x xs)
  All-insert_by P x [] h hs = (h, tt)
  All-insert_by P x (y ∷ ys) h hs = elim (Bool-cases (le y x)) [
    | inl e ↦ rw e (hs.0, All-insert_by P x ys h hs.1)
    | inr e ↦ rw e (h, (hs.0, hs.1))
  ]

  pub All-order_by {κ} : (P : A → Type κ) (xs : List A) → All P xs → All P (order_by xs)
  All-order_by P [] h = tt
  All-order_by P (x ∷ xs) h = All-insert_by P x (order_by xs) h.0 (All-order_by P xs h.1)

  module _ (total : (x y : A) → le x y ≡ false → le y x ≡ true)
      (trans : (x y z : A) → le x y ≡ true → le y z ≡ true → le x z ≡ true) where
    insert_by-IsSorted : (x : A) (xs : List A) → IsSorted xs → IsSorted (insert_by x xs)
    insert_by-IsSorted x [] h = (tt, tt)
    insert_by-IsSorted x (y ∷ ys) h = elim (Bool-cases (le y x)) [
      | inl e ↦ rw e (All-insert_by (λ z. le y z ≡ true) x ys e h.0, insert_by-IsSorted x ys h.1)
      | inr e ↦
          let above : le x y ≡ true = total y x e in
          rw e (
            (
              above,
              All-imp (λ z. le y z ≡ true) (λ z. le x z ≡ true) ys (λ z. trans x y z above) h.0,
            ),
            h,
          )
    ]

    pub order_by-IsSorted : (xs : List A) → IsSorted (order_by xs)
    order_by-IsSorted [] = tt
    order_by-IsSorted (x ∷ xs) = insert_by-IsSorted x (order_by xs) (order_by-IsSorted xs)

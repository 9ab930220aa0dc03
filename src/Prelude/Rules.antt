-- ===== src/Prelude/Rules.antt =====
-- What a call leaves true of the database, whether it returns or raises: one rule for each way to
-- build a call.
use mathlib.Core.Path.{◌≡◌, refl}
use mathlib.Core.Bool.{Bool}
use mathlib.Core.Option.{Option, none, some}
use fastapi_base.Prelude.Calls.{
  Result, ok, err, Call, pure, raise, gets, or_raise, raise_if, continue, ◌>>=◌, settled,
}

pub record Keeps {S E A : Type 0} (P : S → Type 0) (m : Call S E A) : Type 0 where
  pub at : (s : S) → P s → P (m s).1

module _ {S E : Type 0} {P : S → Type 0} where
  pub Keeps-pure : {A : Type 0} (a : A) → Keeps P (pure {E = E} a)
  Keeps-pure a = record { at = λ s h. h }

  pub Keeps-raise : {A : Type 0} (e : E) → Keeps P (raise {A = A} e)
  Keeps-raise e = record { at = λ s h. h }

  pub Keeps-gets : {A : Type 0} (f : S → A) → Keeps P (gets {E = E} f)
  Keeps-gets f = record { at = λ s h. h }

  pub Keeps-or_raise : {A : Type 0} (o : Option A) (e : E) → Keeps P (or_raise o e)
  Keeps-or_raise none e = record { at = λ s h. h }
  Keeps-or_raise (some a) e = record { at = λ s h. h }

  pub Keeps-raise_if : (b : Bool) (e : E) → Keeps P (raise_if b e)
  Keeps-raise_if b e = record { at = λ s h. h }

  Keeps-continue :
      {A B : Type 0} (r : Result E A) (f : A → Call S E B)
      → ((a : A) → Keeps P (f a))
      → Keeps P (continue r f)
  Keeps-continue (ok a) f k = k a
  Keeps-continue (err e) f k = record { at = λ s h. h }

  pub Keeps-bind :
      {A B : Type 0} (m : Call S E A) (f : A → Call S E B)
      → Keeps P m
      → ((a : A) → Keeps P (f a))
      → Keeps P (m >>= f)
  Keeps-bind m f km kf = record {
    at = λ s h. let (r, s') = m s in (Keeps-continue r f kf).at s' (km.at s h);
  }

pub Keeps-settled :
    {S E A : Type 0} (P : S → Type 0) (m : Call S E A)
    → Keeps P m
    → (s : S) → P s
    → P (settled s (m s))
Keeps-settled {S = S} {E = E} {A = A} P m k s h = let (r, s') = m s in go r s' (k.at s h)
  where
    go : (r : Result E A) (s' : S) → P s' → P (settled s (r, s'))
    go (ok a) s' h' = h'
    go (err e) s' h' = h

pub ruleset keeps_rules =
    (Keeps-pure, Keeps-raise, Keeps-gets, Keeps-or_raise, Keeps-raise_if, Keeps-bind)

-- A chain that returns has a first call that returned.
pub bind-ok :
    {S E A B : Type 0} (m : Call S E A) (f : A → Call S E B) (s : S) {b : B}
    → ((m >>= f) s).0 ≡ ok b
    → (a : A) × ((m s).0 ≡ ok a)
bind-ok {S} {E} {A} {B} m f s {b} h = let (r, s') = m s in go r s' h
  where
    go : (r : Result E A) (s' : S) → (continue r f s').0 ≡ ok b → (a : A) × (r ≡ ok a)
    go (ok a) s' h = (a, refl)
    go (err e) s' h = cc

pub or_raise-state : {S E A : Type 0} (o : Option A) (e : E) (s : S) → (or_raise o e s).1 ≡ s
or_raise-state none e s = refl
or_raise-state (some a) e s = refl

-- What holds of the database before a request and after a call that returned holds when it is over.
pub settled_ok :
    {S E A : Type 0} (P : S → Type 0) (s : S) (r : Result E A × S)
    → P s
    → ((a : A) → r.0 ≡ ok a → P r.1)
    → P (settled s r)
settled_ok P s (ok a, s') before after = after a refl
settled_ok P s (err e, s') before after = before

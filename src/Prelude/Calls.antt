-- ===== src/Prelude/Calls.antt =====
-- A call that may raise, and a call that also reads and writes the database of its session.
use mathlib.Core.Bool.{Bool}
use mathlib.Core.Option.{Option, none, some}
use fastapi_base.Prelude.Tests.{if◌then◌else◌}

pub data Result (E A : Type 0) : Type 0 where
  ok : A → Result E A
  err : E → Result E A

-- What was written before a raise is still there for the caller, so the state comes back with it.
abbrev pub Call : Type 0 → Type 0 → Type 0 → Type 0
Call S E A = S → Result E A × S

module _ {S E A : Type 0} where
  abbrev pub pure : A → Call S E A
  pure a s = (ok a, s)

  abbrev pub raise : E → Call S E A
  raise e s = (err e, s)

  abbrev pub gets : (S → A) → Call S E A
  gets f s = (ok (f s), s)

  abbrev pub lift : Result E A → Call S E A
  lift r s = (r, s)

  -- `if x is None: raise e`
  abbrev pub or_raise : Option A → E → Call S E A
  or_raise none e = raise e
  or_raise (some a) e = pure a

module _ {S E : Type 0} where
  abbrev pub modify : (S → S) → Call S E Unit
  modify f s = (ok tt, f s)

  abbrev pub raise_if : Bool → E → Call S E Unit
  raise_if b e s = (if b then err e else ok tt, s)

abbrev pub continue : {S E A B : Type 0} → Result E A → (A → Call S E B) → Call S E B
continue (ok a) f s = f a s
continue (err e) f s = (err e, s)

infixl 5 ◌>>=◌ ◌>>◌
abbrev pub ◌>>=◌ : {S E A B : Type 0} → Call S E A → (A → Call S E B) → Call S E B
◌>>=◌ m f s = let (r, s') = m s in continue r f s'

abbrev pub ◌>>◌ : {S E A B : Type 0} → Call S E A → Call S E B → Call S E B
m >> k = m >>= λ _. k

-- What a request leaves committed: all of the call's writes, or none after a raise.
abbrev pub settled : {S E A : Type 0} → S → Result E A × S → S
settled s (ok _, s') = s'
settled s (err _, _) = s

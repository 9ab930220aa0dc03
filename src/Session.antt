-- ===== src/Session.antt =====
-- apps/core/database/session.py (the request's session) and
-- apps/core/database/transactional.py (the decorator of the services' writing methods).
-- SQLAlchemy's session is a parameter: a state with the committed and the visible database, and
-- the effect of begin, commit, rollback and of a statement on both.
use fastapi_base.Prelude.{
  ◌≡◌, Bool, true, false, Result, ok, err, Call, settled, if◌then◌else◌, Bool-cases, inl, inr, ◌∙◌,
}

pub record SessionType (D : Type 0) : Type 1 where
  pub State : Type 0
  pub committed : State → D
  -- what a statement of this session reads
  pub visible : State → D
  pub in_transaction : State → Bool
  pub begin : State → State
  pub commit : State → State
  pub rollback : State → State
  -- a statement that leaves the database `d` behind; it begins a transaction by itself
  pub write : D → State → State
  pub committed-begin : (s : State) → committed (begin s) ≡ committed s
  pub visible-begin : (s : State) → visible (begin s) ≡ visible s
  pub committed-commit : (s : State) → committed (commit s) ≡ visible s
  pub visible-commit : (s : State) → visible (commit s) ≡ visible s
  pub committed-rollback : (s : State) → committed (rollback s) ≡ committed s
  pub committed-write : (d : D) (s : State) → committed (write d s) ≡ committed s
  pub visible-write : (d : D) (s : State) → visible (write d s) ≡ d
  pub in_transaction-write : (d : D) (s : State) → in_transaction (write d s) ≡ true

module _ {D : Type 0} (session : SessionType D) where
  open session use {
    State, committed, visible, in_transaction, begin, commit, rollback, write, committed-begin,
    visible-begin, committed-commit, visible-commit, committed-rollback, committed-write,
    visible-write, in_transaction-write,
  }

  commit_twice :
      (s : State) (b : Bool) → committed (if b then commit (commit s) else commit s) ≡ visible s
  commit_twice s true = committed-commit (commit s) ∙ visible-commit s
  commit_twice s false = committed-commit s

  rollback_twice :
      (s : State) (b : Bool)
      → committed (if b then rollback (rollback s) else rollback s) ≡ committed s
  rollback_twice s true = committed-rollback (rollback s) ∙ committed-rollback s
  rollback_twice s false = committed-rollback s

  module _ {E A : Type 0} where
    -- The statements of a method body, one after the other.
    pub run : Call D E A → Call State E A
    run m s = let (r, d) = m (visible s) in (r, write d s)

    -- `session.begin()` as a context manager: commit at the end, roll back on a raise
    finish : Result E A → State → Result E A × State
    finish (ok a) s = (ok a, commit s)
    finish (err e) s = (err e, rollback s)

    -- the decorator: a call inside a running transaction joins it
    pub transactional : Call State E A → Call State E A
    unfolding finish
    transactional func s =
        if in_transaction s then func s else (let (r, s') = func (begin s) in finish r s')

    -- the end of the generator `session_factory`, by how the route handler left it
    close : Result E A → State → Result E A × State
    close (ok a) s = (ok a, if in_transaction s then commit s else s)
    close (err e) s = (err e, if in_transaction s then rollback s else s)

    pub session_factory : Call State E A → Call State E A
    unfolding close
    session_factory handler s = let (r, s') = handler s in close r s'

    -- a body that joined the request's transaction
    close_joined :
        (r : Result E A) (d : D) (s : State)
        → committed (close r (write d s)).1 ≡ settled (committed s) (r, d)
    unfolding close
    close_joined (ok a) d s =
        rw (in_transaction-write d s) (committed-commit (write d s) ∙ visible-write d s)
    close_joined (err e) d s =
        rw (in_transaction-write d s) (committed-rollback (write d s) ∙ committed-write d s)

    -- a body that ran in a transaction of its own
    close_begun :
        (r : Result E A) (d : D) (s : State)
        → let (r', s') = finish r (write d (begin s)) in
          committed (close r' s').1 ≡ settled (committed s) (r, d)
    unfolding close finish
    close_begun (ok a) d s =
        let x = write d (begin s) in
        commit_twice x (in_transaction (commit x)) ∙ visible-write d (begin s)
    close_begun (err e) d s =
        let x = write d (begin s) in
        rollback_twice x (in_transaction (rollback x))
        ∙ committed-write d (begin s)
        ∙ committed-begin s

    pub committed-joined :
        (m : Call D E A) (s : State)
        → committed (session_factory (run m) s).1 ≡ settled (committed s) (m (visible s))
    unfolding session_factory run
    committed-joined m s = let (r, d) = m (visible s) in close_joined r d s

    -- A request handler whose body is decorated commits all of the body's writes when it returns
    -- and none of them when it raises, whether or not an earlier read began a transaction.
    pub committed-session_factory :
        (m : Call D E A) (s : State)
        → committed (session_factory (transactional (run m)) s).1
          ≡ settled (committed s) (m (visible s))
    unfolding session_factory transactional run
    committed-session_factory m s = elim (Bool-cases (in_transaction s)) [
      | inl e ↦ rw e (let (r, d) = m (visible s) in close_joined r d s)
      | inr e ↦ rw (e, visible-begin s) (let (r, d) = m (visible s) in close_begun r d s)
    ]

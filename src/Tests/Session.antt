-- ===== src/Tests/Session.antt =====
-- A session over a database that is one number, as PostgreSQL keeps it: what is committed, what the
-- transaction has written, and whether there is one.
use fastapi_base.Prelude.{ℕ, ◌+◌, ◌≡◌, refl, Bool, true, false, Call, err, settled}
use fastapi_base.Session.{
  SessionType, run, transactional, session_factory, committed-session_factory,
}

pub record Connection : Type 0 where
  pub stored : ℕ
  pub written : ℕ
  pub open_transaction : Bool

abbrev connections : SessionType ℕ
connections = record {
  State = Connection;
  committed = λ s. s.stored;
  visible = λ s. s.written;
  in_transaction = λ s. s.open_transaction;
  begin = λ s. record s { open_transaction = true };
  commit = λ s. record { stored = s.written; written = s.written; open_transaction = false };
  rollback = λ s. record { stored = s.stored; written = s.stored; open_transaction = false };
  write = λ d s. record { stored = s.stored; written = d; open_transaction = true };
  committed-begin = λ s. refl;
  visible-begin = λ s. refl;
  committed-commit = λ s. refl;
  visible-commit = λ s. refl;
  committed-rollback = λ s. refl;
  committed-write = λ d s. refl;
  visible-write = λ d s. refl;
  in_transaction-write = λ d s. refl;
}

-- writes, and then raises
abbrev count_and_raise : Call ℕ Bool Unit
count_and_raise n = (err false, n + 1)

abbrev idle : Connection
idle = record { stored = 4; written = 4; open_transaction = false }

committed-session_factory_example :
    connections.committed
      (session_factory connections
        (transactional connections (run connections count_and_raise))
        idle).1
    ≡ settled 4 (count_and_raise 4)
committed-session_factory_example = committed-session_factory connections count_and_raise idle

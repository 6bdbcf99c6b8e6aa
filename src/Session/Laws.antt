-- ===== src/Session/Laws.antt =====
-- What a request leaves in the database, by how its handler uses the session.
use blog_be.Prelude.{◌≡◌, refl, some, arith}
use blog_be.Exec.{Result, ok, err, Exec}
use blog_be.Session.{execute, begin, transactional, sqlalchemy_middleware, standalone_session}

-- What a committing run leaves: the new state on a result, the old one on an error.
abbrev pub settled : {D A : Type 0} → D → Result A × D → Result A × D
settled d (ok a, d') = (ok a, d')
settled d (err e, d') = (err e, d)

module _ {D A : Type 0} where
  pub request-transactional :
      (m : Exec D A) (d : D) → sqlalchemy_middleware (transactional (execute m)) d ≡ settled d (m d)
  unfolding sqlalchemy_middleware transactional begin execute
  request-transactional m d = ground arith

  pub request-execute : (m : Exec D A) (d : D) → sqlalchemy_middleware (execute m) d ≡ ((m d).0, d)
  unfolding sqlalchemy_middleware execute
  request-execute m d = refl

  -- A request that opens a transaction with `transactional` commits exactly when its statements
  -- succeed, and a failed one leaves the database as it was. If a statement ran before on the same
  -- session and was not rolled back, the call joins that transaction and nothing is committed.
  transactional_settles :
      (m : Exec D A) (d u : D)
      → (sqlalchemy_middleware (transactional (execute m)) d ≡ settled d (m d))
        × (sqlalchemy_middleware (λ s. transactional (execute m) (record s { working = some u })) d
            ≡ ((m u).0, d))
  unfolding sqlalchemy_middleware transactional begin execute
  transactional_settles m d u = (ground arith, refl)

  -- An inner `transactional` joins the transaction of an outer one.
  pub transactional-transactional :
      (m : Exec D A) (d : D)
      → sqlalchemy_middleware (transactional (transactional (execute m))) d
        ≡ sqlalchemy_middleware (transactional (execute m)) d
  unfolding sqlalchemy_middleware transactional begin execute
  transactional-transactional m d = refl

  -- A script under `standalone_session` keeps what `transactional` committed, and nothing else.
  pub standalone-transactional :
      (m : Exec D A) (d : D) → standalone_session (transactional (execute m)) d ≡ settled d (m d)
  unfolding standalone_session transactional begin execute
  standalone-transactional m d = ground arith

-- ===== src/Session.antt =====
-- app/core/db/session.py, transactional.py, standalone_session.py and
-- app/core/fastapi/middlewares/sqlalchemy.py: the scoped session of one request.
-- A session stands over a database of type `D`: what is committed, and what the running
-- transaction has written. Any statement begins a transaction if none runs (SQLAlchemy's
-- autobegin); `begin` on a session that is in a transaction raises InvalidRequestError.
pub mod Laws
use blog_be.Prelude.{Bool, true, false, Option, none, some, if◌then◌else◌}
use blog_be.Error.{invalid_request}
use blog_be.Exec.{Result, ok, err, Exec}

pub record Session (D : Type 0) : Type 0 where
  pub committed : D
  pub working : Option D

module _ {D : Type 0} where
  unfoldable pub in_transaction : Session D → Bool
  in_transaction s = elim s.working [ none ↦ false | some _ ↦ true ]

  -- what a statement sees
  abbrev pub view : Session D → D
  view s = elim s.working [ none ↦ s.committed | some d ↦ d ]

  abbrev pub rollback : Session D → Session D
  rollback s = record s { working = none }

  abbrev pub commit : Session D → Session D
  commit s = record { committed = view s; working = none }

module _ {D A : Type 0} where
  -- A run of statements on the session.
  unfoldable pub execute : Exec D A → Exec (Session D) A
  execute m s = let (r, d) = m (view s) in (r, record s { working = some d })

  -- the end of `async with session.begin()`: commit, or roll back and raise again
  abbrev pub leave_begin : Result A × Session D → Result A × Session D
  leave_begin (ok a, s) = (ok a, commit s)
  leave_begin (err e, s) = (err e, rollback s)

  -- `async with session.begin(): …`
  unfoldable pub begin : Exec (Session D) A → Exec (Session D) A
  unfolding in_transaction
  begin m s =
      if in_transaction s
      then (err invalid_request, s)
      else leave_begin (m (record s { working = some s.committed }))

  -- `Transactional.__call__`
  unfoldable pub transactional : Exec (Session D) A → Exec (Session D) A
  unfolding in_transaction
  transactional func s = if in_transaction s then func s else begin func s

  -- `SQLAlchemyMiddleware.__call__`: a fresh session for the request, and `session.remove()`, which
  -- rolls back what is not committed, whether the application raises or not.
  unfoldable pub sqlalchemy_middleware : Exec (Session D) A → D → Result A × D
  sqlalchemy_middleware app d =
      let (r, s) = app (record { committed = d; working = none }) in (r, (rollback s).committed)

  abbrev pub leave_standalone : Result A × Session D → Result A × D
  leave_standalone (ok a, s) = (ok a, (rollback s).committed)
  leave_standalone (err e, s) = (err e, (rollback (rollback s)).committed)

  -- `standalone_session`: the rollback on an exception comes before the `remove()` of `finally`.
  unfoldable pub standalone_session : Exec (Session D) A → D → Result A × D
  standalone_session func d = leave_standalone (func (record { committed = d; working = none }))

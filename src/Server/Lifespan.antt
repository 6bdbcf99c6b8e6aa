-- ===== src/Server/Lifespan.antt =====
-- `lifespan` of app/server.py with the registry of engines in app/core/db/session.py, and
-- app/core/db/schema.py.
use blog_be.Prelude.{ℕ, String, ◌≡◌, refl, Bool, true, List, [], ◌∷◌, ◌++◌, map}
use blog_be.Error.{runtime_error}
use blog_be.Exec.{Result, ok, Exec, modify, or_raise, lift, ◌>>=◌, ◌>>◌}
use blog_be.Auth.Keys.{member, set_member}

-- the fields of `Config` that `init_engines` reads
pub record PoolConfig : Type 0 where
  pub pool_size : ℕ
  pub max_overflow : ℕ
  pub statement_timeout_ms : ℕ
  pub lock_timeout_ms : ℕ
  pub idle_in_transaction_timeout_ms : ℕ

-- the arguments of `create_async_engine`
pub record EngineArgs : Type 0 where
  pub database_url : String
  pub echo : Bool
  pub pool_pre_ping : Bool
  pub pool_recycle : ℕ
  pub pool : PoolConfig

-- SQLAlchemy: what makes an engine, and `create_all` on a connection of one
pub record EngineLibrary (E : Type 0) : Type 0 where
  pub create_async_engine : EngineArgs → E
  pub create_all : E → Result (Unit {0})

-- the dict `engines`, and the engines that were disposed
pub record Engines (E : Type 0) : Type 0 where
  pub engines : List (String × E)
  pub disposed : List E

abbrev pub engine_name : String
engine_name = "default"

module _ {E : Type 0} (lib : EngineLibrary E) where
  -- the engine that a call of `init_engines` makes
  abbrev pub engine_for : PoolConfig → String → Bool → E
  engine_for cfg database_url echo = lib.create_async_engine (record {
    database_url = database_url;
    echo = echo;
    pool_pre_ping = true;
    pool_recycle = 3600;
    pool = cfg;
  })

  -- `init_engines`
  unfoldable pub init_engines : PoolConfig → String → Bool → Exec (Engines E) (Unit {0})
  init_engines cfg database_url echo = modify (λ s. record s {
    engines = set_member engine_name (engine_for cfg database_url echo) s.engines;
  })

  -- `dispose_engines`
  unfoldable pub dispose_engines : Exec (Engines E) (Unit {0})
  dispose_engines =
      modify
        (λ s. record { engines = []; disposed = s.disposed ++ map (λ entry. entry.1) s.engines })

  -- `_RoutedSession.get_bind`
  unfoldable pub get_bind : Exec (Engines E) E
  get_bind s = or_raise (member engine_name s.engines) runtime_error s

  -- `init_tables`, which is all of `init_schema`
  unfoldable pub init_tables : Exec (Engines E) (Unit {0})
  init_tables = do engine ← get_bind; lift (lib.create_all engine)

  -- `try: … finally: await dispose_engines()`
  abbrev pub finally_dispose : {A : Type 0} → Exec (Engines E) A → Exec (Engines E) A
  finally_dispose m s = let (r, s') = m s in (r, (dispose_engines s').1)

  -- `lifespan` around the requests that are served
  unfoldable pub lifespan :
      {A : Type 0} → PoolConfig → String → Bool → Exec (Engines E) A → Exec (Engines E) A
  lifespan cfg database_url echo serving = do
    init_engines cfg database_url echo
    init_tables
    finally_dispose serving

  -- In the life span of a program that starts with no engine, `get_bind` finds the engine that was made,
  -- and afterwards that engine is disposed and none is left.
  pub lifespan_disposes :
      (cfg : PoolConfig) (database_url : String) (echo : Bool) (s : Engines E)
      → s.engines ≡ []
      → lib.create_all (engine_for cfg database_url echo) ≡ ok tt
      → let engine = engine_for cfg database_url echo in
        lifespan cfg database_url echo get_bind s
        ≡ (ok engine, record { engines = []; disposed = s.disposed ++ engine ∷ [] })
  unfolding lifespan init_engines init_tables get_bind dispose_engines
  lifespan_disposes cfg database_url echo s none_yet created = rw (none_yet, created) refl

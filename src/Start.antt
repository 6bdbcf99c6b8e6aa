-- ===== src/Start.antt =====
-- main.py: the command line, the environment it leaves, and the arguments of `uvicorn.run`.
pub mod Application
pub mod Launch
use Prim.Native.Char.{Char, code}
use Prim.Native.String.{String}
use blog_be.Prelude.{
  ℕ, Bool, true, false, not, Option, none, some, List, [], ◌∷◌, ◌==◌, nat_eq, string_eq,
  if◌then◌else◌,
}
use blog_be.Exec.{Result, ok, err, Exec, bind, pure, modify, ◌>>=◌, ◌>>◌}
use blog_be.Server.Http.{lower_text}
use blog_be.Config.{Config, KeyLibrary}
use blog_be.Config.Loader.{config}

-- the choices of `--env`
pub data EnvChoice : Type 0 where
  prod dev local : EnvChoice

abbrev pub choice_name : EnvChoice → String
choice_name prod = "prod"
choice_name dev = "dev"
choice_name local = "local"

-- `os.environ`
abbrev pub Environ : Type 0
Environ = String → Option String

abbrev pub set_env : String → String → Environ → Environ
set_env name text environ other = if other == name then some text else environ other

-- `str(debug)`
abbrev pub str_of_bool : Bool → String
str_of_bool true = "True"
str_of_bool false = "False"

-- `os.environ.get("ENV", "local").lower()`
abbrev pub env_of : Environ → String
env_of environ = elim (environ "ENV") [ none ↦ "local" | some env ↦ lower_text env ]

-- the arguments of `uvicorn.run`
pub record ServerArgs : Type 0 where
  pub app : String
  pub host : String
  pub port : ℕ
  pub reload : Bool
  pub workers : ℕ
  pub timeout_graceful_shutdown : ℕ

-- the process: its environment, and what `loader` has cached
pub record Process : Type 0 where
  pub environ : Environ
  pub cached : Option Config

-- `read` is what pydantic-settings makes of an environment and the files, before the validator.
module _ {K : Type 0} (lib : KeyLibrary K) (read : Environ → Option (List String) → Result Config)
    (is_file : String → Bool) where
  -- `loader.config`
  unfoldable pub loaded : Exec Process Config
  loaded p =
      let (r, cached) = config lib (read p.environ) is_file (env_of p.environ) p.cached in
      (r, record p { cached = cached })

  abbrev pub setting : {A : Type 0} → (Config → A) → Exec Process A
  setting field = do cfg ← loaded; pure (field cfg)

  abbrev pub workers_of : String → Exec Process ℕ
  workers_of env = if env == "prod" then setting (λ cfg. cfg.workers) else pure 1

  -- `main`, up to the call of `uvicorn.run`
  unfoldable pub main : EnvChoice → Bool → Exec Process ServerArgs
  main choice debug = do
    let env = choice_name choice
    modify (λ p. record p {
      environ = set_env "DEBUG" (str_of_bool debug) (set_env "ENV" env p.environ);
    })
    host ← setting (λ cfg. cfg.app_host)
    port ← setting (λ cfg. cfg.app_port)
    workers ← workers_of env
    timeout ← setting (λ cfg. cfg.graceful_shutdown_seconds)
    pure (record {
      app = "app.server:app";
      host = host;
      port = port;
      reload = not (env == "prod");
      workers = workers;
      timeout_graceful_shutdown = timeout;
    })

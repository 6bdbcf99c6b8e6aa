-- ===== src/Start/Launch.antt =====
-- The server that main.py starts, and the application that it serves.
use blog_be.Prelude.{
  String, ◌≡◌, refl, ◌∙◌, ap, Bool, true, false, not, ◌&&◌, Option, none, some, List, any,
  if◌then◌else◌, Bool-cases, inl, inr,
}
use blog_be.Exec.{Result, ok}
use blog_be.Config.{Config, KeyLibrary, is_prod, prod_checks, resolve_env_files}
use blog_be.Config.Checks.{prod_checks-IsProdReady}
use blog_be.Config.Loader.{files_or_none, build_config, config}
use blog_be.Server.Gateway.{Middleware, login_rate_limit, init_middleware}
use blog_be.Start.{
  EnvChoice, prod, dev, local, choice_name, Environ, set_env, str_of_bool, ServerArgs, Process,
  loaded, main,
}
use blog_be.Start.Application.{init_app}

abbrev pub is_prod_choice : EnvChoice → Bool
is_prod_choice prod = true
is_prod_choice dev = false
is_prod_choice local = false

abbrev pub is_limiter : Middleware → Bool
is_limiter login_rate_limit = true
is_limiter _ = false

-- the environment that `main` leaves
abbrev pub environ_of : EnvChoice → Bool → Environ → Environ
environ_of choice debug environ =
    set_env "DEBUG" (str_of_bool debug) (set_env "ENV" (choice_name choice) environ)

environ_of_lem :
    (choice : EnvChoice) (debug : Bool) (environ : Environ)
    → environ_of choice debug environ "ENV" ≡ some (choice_name choice)
environ_of_lem choice debug environ = refl

-- pydantic-settings documents that a variable of the environment comes before the files
pub record IsSettings (read : Environ → Option (List String) → Result Config) : Type 0 where
  pub env_first :
      (environ : Environ) (files : Option (List String)) (c : Config) (env : String)
      → environ "ENV" ≡ some env
      → read environ files ≡ ok c
      → c.env ≡ env

-- The server that is started with a choice and the configuration that its process has loaded.
pub record IsStarted (choice : EnvChoice) (c : Config) (args : ServerArgs) : Type 0 where
  pub production : is_prod c ≡ is_prod_choice choice
  -- one worker outside production
  pub workers : args.workers ≡ (if is_prod_choice choice then c.workers else 1)
  pub reload : args.reload ≡ not (is_prod_choice choice)
  pub host : (args.host ≡ c.app_host) × (args.port ≡ c.app_port)
  pub timeout : args.timeout_graceful_shutdown ≡ c.graceful_shutdown_seconds
  -- the login limit is there outside production, where one process counts all logins
  pub limiter : any is_limiter (init_app c).middleware ≡ not (is_prod_choice choice)
  -- in production DEBUG is off, whatever `--debug` says, and no documentation is served
  pub quiet : (is_prod_choice choice && c.debug) ≡ false
  pub docs :
      ((init_app c).docs_url ≡ (if is_prod_choice choice then none else some "/swagger_ui"))
      × ((init_app c).redoc_url ≡ (if is_prod_choice choice then none else some "/redoc"))
      × ((init_app c).openapi_url ≡ (if is_prod_choice choice then none else some "/openapi.json"))

is_prod-choice_name :
    (choice : EnvChoice) (c : Config)
    → c.env ≡ choice_name choice
    → is_prod c ≡ is_prod_choice choice
unfolding is_prod
is_prod-choice_name prod c e = rw e refl
is_prod-choice_name dev c e = rw e refl
is_prod-choice_name local c e = rw e refl

limiter-init_middleware : (c : Config) → any is_limiter (init_middleware c) ≡ not (is_prod c)
unfolding init_middleware
limiter-init_middleware c = elim (Bool-cases (is_prod c)) [
  | inl on ↦ rw on refl
  | inr off ↦ rw off refl
]

quiet_unless : (in_prod debug : Bool) → (in_prod && (not in_prod && debug)) ≡ false
quiet_unless true debug = refl
quiet_unless false debug = refl

-- what the checks leave: DEBUG is off in production, and nothing else changes
checked-eq :
    {K : Type 0} (lib : KeyLibrary K) (c c' : Config)
    → prod_checks lib c ≡ ok c'
    → c' ≡ record c { debug = not (is_prod c) && c.debug }
unfolding prod_checks
checked-eq lib c c' e = elim (Bool-cases (is_prod c)) [
  | inl on ↦ rw on (prod_checks-IsProdReady lib c {c' = c'} on e).quiet
  | inr off ↦ rw off (let same : ok c ≡ ok c' = rw off at e in cc)
]

module _ {K : Type 0} (lib : KeyLibrary K) (read : Environ → Option (List String) → Result Config)
    (is_file : String → Bool) where
  abbrev args_of : EnvChoice → Config → ServerArgs
  args_of choice c = record {
    app = "app.server:app";
    host = c.app_host;
    port = c.app_port;
    reload = not (is_prod_choice choice);
    workers = if is_prod_choice choice then c.workers else 1;
    timeout_graceful_shutdown = c.graceful_shutdown_seconds;
  }

  main_lem :
      (choice : EnvChoice) (debug : Bool) (p : Process) (c c' : Config)
      → p.cached ≡ none
      → read
          (environ_of choice debug p.environ)
          (files_or_none (resolve_env_files is_file (choice_name choice)))
        ≡ ok c
      → prod_checks lib c ≡ ok c'
      → main lib read is_file choice debug p ≡ (
        ok (args_of choice c'),
        record { environ = environ_of choice debug p.environ; cached = some c' },
      )
  unfolding main loaded config build_config
  main_lem prod debug p c c' fresh parsed checked = rw (fresh, parsed, checked) refl
  main_lem dev debug p c c' fresh parsed checked = rw (fresh, parsed, checked) refl
  main_lem local debug p c c' fresh parsed checked = rw (fresh, parsed, checked) refl

  started :
      (choice : EnvChoice) (c : Config)
      → c.env ≡ choice_name choice
      → IsStarted choice
          (record c { debug = not (is_prod c) && c.debug })
          (args_of choice (record c { debug = not (is_prod c) && c.debug }))
  unfolding init_app init_middleware is_prod
  started choice c env =
      let production = is_prod-choice_name choice c env in
      record {
        production = production;
        workers = refl;
        reload = refl;
        host = (refl, refl);
        timeout = refl;
        limiter =
            limiter-init_middleware (record c { debug = not (is_prod c) && c.debug })
            ∙ ap not production;
        quiet = rw production (quiet_unless (is_prod_choice choice) c.debug);
        docs = (rw production refl, rw production refl, rw production refl);
      }

  -- With pydantic-settings as documented, if the environment that `main` leaves and the files make a
  -- configuration that passes the checks, then `main` starts the server with its host, port and
  -- timeout. The configuration is a production one exactly if `--env` is prod. Outside production the
  -- server has one worker, reloads, and limits logins; in production it has the configured number of
  -- workers, does not reload, has no limit of logins and no documentation, and DEBUG is off.
  pub main_starts :
      IsSettings read
      → (choice : EnvChoice) (debug : Bool) (p : Process) {c c' : Config} → p.cached ≡ none
      → (let environ = environ_of choice debug p.environ in
          read environ (files_or_none (resolve_env_files is_file (choice_name choice))) ≡ ok c)
      → prod_checks lib c ≡ ok c'
      → (args : ServerArgs) × (main lib read is_file choice debug p
          ≡ (ok args, record { environ = environ_of choice debug p.environ; cached = some c' }))
        × IsStarted choice c' args
  main_starts documented choice debug p {c} {c'} fresh parsed checked =
      let env =
        documented.env_first (environ_of choice debug p.environ) _ c (choice_name choice)
          (environ_of_lem choice debug p.environ) parsed in
      let left = checked-eq lib c c' checked in
      (
        args_of choice c',
        main_lem choice debug p c c' fresh parsed checked,
        rw left (started choice c env),
      )

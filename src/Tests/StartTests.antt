-- ===== src/Tests/StartTests.antt =====
-- main.py in a production environment.
use blog_be.Prelude.{String, ◌≡◌, refl, ap, true, false, sym, Option, none, some, List, string_eq}
use blog_be.Exec.{Result, ok}
use blog_be.Config.{
  Config, prod_checks, is_prod, check_prod_jwt_private_key, check_prod_gateway_secret, strip,
}
use blog_be.Server.Http.{lower_text}
use blog_be.Start.{EnvChoice, Environ, ServerArgs, Process, main}
use blog_be.Start.Launch.{IsSettings, IsStarted, main_starts, environ_of}
use blog_be.Tests.ConfigTests.{any_key, prod_config}

abbrev named : Option String → Config
named none = prod_config
named (some env) = record prod_config { env = env }

-- only `ENV` is read
abbrev read_env : Environ → Option (List String) → Result Config
read_env environ files = ok (named (environ "ENV"))

read_env-IsSettings : IsSettings read_env
read_env-IsSettings = record {
  env_first = λ environ files c env set parsed.
      let same : ok (named (some env)) ≡ ok c = rw set at parsed in
      let read_as : named (some env) ≡ c = cc in ap (λ (d : Config). d.env) (sym read_as);
}

abbrev fresh_process : Process
fresh_process = record { environ = λ _. none; cached = none }

abbrev prod_process : Process
prod_process = record {
  environ = environ_of EnvChoice.prod true fresh_process.environ;
  cached = some (record prod_config { env = "prod"; debug = false });
}

main_starts_example :
    (args : ServerArgs) × (main any_key read_env (λ _. false) EnvChoice.prod true fresh_process
      ≡ (ok args, prod_process))
    × IsStarted EnvChoice.prod (record prod_config { env = "prod"; debug = false }) args
unfolding prod_checks is_prod check_prod_jwt_private_key check_prod_gateway_secret strip
main_starts_example =
    main_starts any_key read_env (λ _. false) read_env-IsSettings EnvChoice.prod true fresh_process
      {c = record prod_config { env = "prod" }}
      {c' = record prod_config { env = "prod"; debug = false }} refl refl refl

lowered : lower_text "PROD" ≡ "prod"
lowered = refl

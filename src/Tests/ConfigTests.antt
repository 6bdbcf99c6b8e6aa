-- ===== src/Tests/ConfigTests.antt =====
-- A production configuration.
use blog_be.Prelude.{◌≡◌, refl, true, false, none, some, [], ◌∷◌, string_eq}
use blog_be.Exec.{ok, err}
use blog_be.Error.{value_error}
use blog_be.Server.Http.{Request, codes}
use blog_be.Server.Gateway.{gateway_dispatch, init_middleware, gateway_shared_secret, sqlalchemy}
use blog_be.Config.{
  Config, KeyLibrary, rsa_key, is_prod, strip, prod_checks, check_prod_jwt_private_key,
  check_prod_gateway_secret, cors_origins_list, resolve_env_files,
}
use blog_be.Config.Checks.{IsProdReady, prod_checks-IsProdReady, prod_gateway_closed}

abbrev pub any_key : KeyLibrary (Unit {0})
any_key = record { load_pem = λ _. some (rsa_key tt) }

abbrev pub prod_config : Config
prod_config = record {
  env = "Production";
  debug = true;
  app_host = "0.0.0.0";
  app_port = 8080;
  workers = 2;
  graceful_shutdown_seconds = 20;
  cors_origins = "https://a.example, ,https://b.example ";
  jwt_private_key_pem = "key";
  jwt_kid = "v1";
  gateway_shared_secret = "0123456789abcdef0123456789abcdef";
}

abbrev pub checked_config : Config
checked_config = record prod_config { debug = false }

abbrev spoofed : Request
spoofed = record { path = "/posts"; method = "POST"; client_host = none; gateway_auth = none }

pub prod_config-is_prod : is_prod prod_config ≡ true
unfolding is_prod
prod_config-is_prod = refl

pub prod_config_checked : prod_checks any_key prod_config ≡ ok checked_config
unfolding prod_checks is_prod check_prod_jwt_private_key check_prod_gateway_secret strip
prod_config_checked = refl

short_secret_refused :
    prod_checks any_key (record prod_config { gateway_shared_secret = " secret " })
    ≡ err value_error
unfolding prod_checks is_prod check_prod_jwt_private_key check_prod_gateway_secret strip
short_secret_refused = refl

two_origins :
    cors_origins_list prod_config ≡ codes "https://a.example" ∷ codes "https://b.example" ∷ []
unfolding cors_origins_list strip
two_origins = refl

-- with `ENV=prod` the files of the other spelling come after `.env.local` and `.env.prod.local`
prod_files :
    resolve_env_files (λ _. true) "prod"
    ≡ ".env" ∷ ".env.prod" ∷ ".env.local" ∷ ".env.prod.local" ∷ ".env.production"
      ∷ ".env.production.local" ∷ []
unfolding resolve_env_files
prod_files = refl

prod_checks-IsProdReady_example : IsProdReady any_key prod_config checked_config
prod_checks-IsProdReady_example =
    prod_checks-IsProdReady any_key prod_config {c' = checked_config} prod_config-is_prod
      prod_config_checked

prod_gateway_closed_example :
    (init_middleware checked_config
      ≡ gateway_shared_secret prod_config.gateway_shared_secret ∷ sqlalchemy ∷ [])
    × (gateway_dispatch checked_config.gateway_shared_secret spoofed ≡ false)
prod_gateway_closed_example =
    prod_gateway_closed any_key prod_config {c' = checked_config} spoofed prod_config-is_prod
      prod_config_checked refl

-- ===== src/Start/Application.antt =====
-- `init_app` of app/server.py: the arguments of `FastAPI`, and what is added to the application.
use blog_be.Prelude.{String, Bool, Option, none, some, List, [], ◌∷◌, if◌then◌else◌}
use blog_be.Config.{Config, is_prod}
use blog_be.Server.Gateway.{Middleware, init_middleware}

-- the classes of exceptions that `init_app` adds a handler for
pub data Handled : Type 0 where
  custom_exception request_validation_error : Handled

-- the routers and the life span are the same in every application
pub record Application : Type 0 where
  pub title : String
  pub description : String
  pub version : String
  pub docs_url : Option String
  pub redoc_url : Option String
  pub openapi_url : Option String
  pub middleware : List Middleware
  pub exception_handlers : List Handled

-- `None if is_prod else url`
abbrev unless_prod : Bool → String → Option String
unless_prod is_prod url = if is_prod then none else some url

unfoldable pub init_app : Config → Application
init_app cfg = record {
  title = "blog_be";
  description = "Backend for blog_ui (Next.js)";
  version = "0.1.0";
  docs_url = unless_prod (is_prod cfg) "/swagger_ui";
  redoc_url = unless_prod (is_prod cfg) "/redoc";
  openapi_url = unless_prod (is_prod cfg) "/openapi.json";
  middleware = init_middleware cfg;
  exception_handlers = Handled.custom_exception ∷ Handled.request_validation_error ∷ [];
}

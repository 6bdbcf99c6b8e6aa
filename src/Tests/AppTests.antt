-- ===== src/Tests/AppTests.antt =====
-- Requests to the whole application.
use blog_be.Prelude.{ℕ, ◌≤◌, false, List, String, ◌≡◌, refl, none, some, [], ◌∷◌, string_eq, arith}
use blog_be.Error.{authentication_required}
use blog_be.Exec.{ok}
use blog_be.Server.Http.{uncached}
use blog_be.Server.Gateway.{gateway_dispatch, constant_time_equal, init_middleware}
use blog_be.Server.RateLimit.Laws.{no_attempts, count_within}
use blog_be.App.Limit.{login_log, logins_reach_limited}
use blog_be.Auth.Repository.{active}
use blog_be.Auth.Token.{require_admin, require_admin_from_header, verify_bearer}
use blog_be.Config.{Config, is_prod}
use blog_be.App.Endpoints.{post_delete, post_publish, login_post, gateway_hop_missing}
use blog_be.App.Handlers.{route, World, Call, State, settings}
use blog_be.App.Serve.{handle}
use blog_be.App.Access.{SameSite, handle-SameSite}
use blog_be.App.Hop.{handle_closed}
use blog_be.App.Middleware.{passed}
use blog_be.App.Posts.{after_write, is_accepted, handle-blog}
use blog_be.App.Kept.{handle_all}
use blog_be.App.Validity.{IsStore, handle_all-IsStore}
use blog_be.App.History.{accepted_writes, handle_all_refines}
use blog_be.Post.Service.{publish, require_post}
use blog_be.Post.Repository.{get_by_id}
use blog_be.Session.{transactional, begin, execute, in_transaction}
use blog_be.Database.{update_post}
use blog_be.Post.Writes.Requests.{publish_post, patch_post, request}
use blog_be.Post.Site.{step, replay}
use blog_be.Post.Site.View.{view}
use blog_be.Post.Site.Refines.{request_refines}
use blog_be.Tests.AuthTests.{cfg, accounts, draw}
use blog_be.Tests.BlogData.{env, blog, blog-IsValid, retag_payload}
use blog_be.Tests.Ilike.{ilike_ascii}
use blog_be.Tests.LoginTests.{one_jwt, plain}
use blog_be.Tests.ContentTests.{text_json, about_row, about_rows-IsContents}
use blog_be.Tests.ConfigTests.{any_key, prod_config, prod_config-is_prod}
use blog_be.Tests.KeysTests.{one_rsa}
use blog_be.Tests.WebTests.{limits}

abbrev world : Config → World String (Unit {0}) (Unit {0})
world config = record {
  config = config;
  auth = cfg;
  dummy_hash = "dummy";
  limits = limits;
  ilike = ilike_ascii;
  jwt = one_jwt;
  bcrypt = plain;
  json = text_json;
  key_library = any_key;
  rsa = one_rsa;
}

abbrev pub local : World String (Unit {0}) (Unit {0})
local = world (record prod_config { env = "local" })

abbrev prod : World String (Unit {0}) (Unit {0})
prod = world prod_config

abbrev pub state : State String (Unit {0})
state = record {
  db = record {
    committed = record { accounts = accounts active; blog = blog; contents = about_row ∷ [] };
    working = none;
  };
  attempts = no_attempts;
  keys = [];
}

abbrev pub stranger : Call String
stranger = record {
  endpoint = post_delete "first";
  client_host = some "10.0.0.1";
  gateway_auth = none;
  user_id = some "admin";
  creds = none;
  env = env;
  draw = draw;
  tick = 10;
}

handle-SameSite_example : SameSite state.db (handle local stranger state).1.db
unfolding require_admin settings is_prod verify_bearer
handle-SameSite_example = handle-SameSite local stranger state authentication_required refl

handle_closed_example : handle prod stranger state ≡ (ok (uncached gateway_hop_missing), state)
handle_closed_example =
    handle_closed prod stranger state prod_config-is_prod
      (λ e. ground (arith, string_eq.beq_iff prod_config.gateway_shared_secret "")) refl
      (λ e. absurd (cc))

abbrev publisher : Call String
publisher = record stranger {
  endpoint = post_publish "third";
  gateway_auth = some prod_config.gateway_shared_secret;
}

abbrev calls : List (Call String)
calls = stranger ∷ publisher ∷ []

-- the request without the gateway's header is not among the accepted writes
one_write : accepted_writes prod calls state ≡ (env, publish_post "third") ∷ []
unfolding passed gateway_dispatch constant_time_equal require_admin require_admin_from_header
    settings is_prod handle init_middleware route transactional begin execute in_transaction publish
    require_post get_by_id update_post
one_write = refl

state-IsStore : IsStore state.db.committed
state-IsStore = record {
  accounts = record { admins = (refl, tt); tokens = (refl, tt) };
  blog = blog-IsValid;
  contents = about_rows-IsContents;
}

handle_all_refines_example :
    view (handle_all prod calls state).db.committed.blog
    ≡ replay (accepted_writes prod calls state) (view blog)
handle_all_refines_example = handle_all_refines prod calls state state-IsStore

handle_all-IsStore_example : IsStore (handle_all prod calls state).db.committed
handle_all-IsStore_example = handle_all-IsStore prod calls state state-IsStore

handle-blog_example :
    (handle prod publisher state).1.db.committed.blog
    ≡ after_write env (some (publish_post "third")) (is_accepted prod publisher state) blog
handle-blog_example = handle-blog prod publisher state

request_refines_example :
    ((request env (patch_post "first" retag_payload) blog).0
      ≡ (step env (patch_post "first" retag_payload) (view blog)).0)
    × (view (request env (patch_post "first" retag_payload) blog).1
        ≡ (step env (patch_post "first" retag_payload) (view blog)).1)
request_refines_example = request_refines env (patch_post "first" retag_payload) blog blog-IsValid

abbrev login_at : ℕ → Call String
login_at tick = record stranger { endpoint = login_post "admin" "guess"; tick = tick }

abbrev logins : List (Call String)
logins = login_at 10 ∷ stranger ∷ login_at 11 ∷ login_at 12 ∷ []

pub local_config-is_prod : is_prod local.config ≡ false
unfolding is_prod
local_config-is_prod = refl

logins_reach_limited_example :
    count_within limits 12 (login_log local logins state no_attempts "10.0.0.1") ≤ 2
logins_reach_limited_example =
    logins_reach_limited local logins state "10.0.0.1" 12 local_config-is_prod refl (omega arith)

-- outside production, with a bearer token that is checked with the key
abbrev bearer : Call String
bearer = record stranger { endpoint = post_publish "third"; creds = some "token" }

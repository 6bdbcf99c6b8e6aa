-- ===== src/App/Handlers.antt =====
-- What each endpoint does in the session of its request: the routes of api/v1, with `require_admin`
-- before those that ask for it.
use blog_be.Prelude.{ℕ, String, Bool, Option, List, []}
use blog_be.Platform.{Platform}
use blog_be.Exec.{ok, Exec, pure, ◌>>=◌, ◌>>◌}
use blog_be.Server.Http.{Reply, cached, uncached}
use blog_be.Server.RateLimit.{Limits, Attempts}
use blog_be.Session.{Session, execute, transactional}
use blog_be.Database.{Blog}
use blog_be.Auth.Token.{AuthConfig, Jwt, require_admin, then_result}
use blog_be.Auth.Password.{Bcrypt}
use blog_be.Auth.Routes.{Draw, login, refresh, logout_body}
use blog_be.Auth.Keys.{RsaLibrary, KeyCache, private_key, jwks}
use blog_be.Config.{Config, KeyLibrary, is_prod}
use blog_be.Content.{Json, read_content, upsert, validate_key}
use blog_be.Post.Schemas.{Entity, to_admin}
use blog_be.Post.Service.{create, update_fields, delete_by_id, publish}
use blog_be.Post.Routes.{
  list_posts, get_post, get_post_nav, list_admin_posts, get_admin_post, search_route,
}
use blog_be.Tag.Routes.{list_tags, get_tag}
use blog_be.App.Store.{Store, on_accounts, on_blog, on_contents, in_accounts}
use blog_be.App.Endpoints.{
  Endpoint, Answer, posts_get, post_get, nav_get, tag_get, content_get, search_get, tags_get,
  jwks_get, healthz_get, admin_posts_get, admin_post_get, post_create, post_patch, post_delete,
  post_publish, content_put, login_post, refresh_post, logout_post, posts_page, post_detail,
  post_nav, tag_list, tag_detail, content_read, admin_page, admin_post, token_pair, key_set,
  no_content, status_ok,
}

-- The program's configuration, the hash that login compares an unknown name with, and the libraries.
pub record World (C K P : Type 0) : Type 0 where
  pub config : Config
  -- the other settings of `Config`; its `is_prod` and `signing_key` are not read
  pub auth : AuthConfig
  pub dummy_hash : String
  pub limits : Limits
  pub ilike : List ℕ → String → Bool
  pub jwt : Jwt
  pub bcrypt : Bcrypt
  pub json : Json C
  pub key_library : KeyLibrary K
  pub rsa : RsaLibrary K P

-- One request: its route, its peer, the headers that the program reads, and what it draws.
pub record Call (C : Type 0) : Type 0 where
  pub endpoint : Endpoint C
  pub client_host : Option String
  pub gateway_auth : Option String
  -- `X-User-ID`, and the token of `Authorization: Bearer`
  pub user_id : Option String
  pub creds : Option String
  pub env : Platform
  pub draw : Draw
  -- the monotonic clock
  pub tick : ℕ

-- what the process holds: the session of the running request, and the two dicts
pub record State (C K : Type 0) : Type 0 where
  pub db : Session (Store C)
  pub attempts : Attempts
  pub keys : KeyCache K

module _ {C K : Type 0} where
  abbrev pub in_session : {A : Type 0} → Exec (Session (Store C)) A → Exec (State C K) A
  in_session m st = let (r, db) = m st.db in (r, record st { db = db })

  abbrev pub in_keys : {A : Type 0} → Exec (KeyCache K) A → Exec (State C K) A
  in_keys m st = let (r, keys) = m st.keys in (r, record st { keys = keys })

abbrev pub with_body : {A B : Type 0} → (A → B) → Reply A → Reply B
with_body f r = record { body = f r.body; cache_control = r.cache_control }

module _ {C K P : Type 0} (w : World C K P) where
  -- The authentication's settings. What `keys.private_key()` gives is what it gives without a cache.
  unfoldable pub settings : AuthConfig
  settings = record w.auth {
    is_prod = is_prod w.config;
    signing_key =
        then_result (private_key w.key_library w.config []).0
          (λ key. ok w.config.jwt_private_key_pem);
  }

  module _ (call : Call C) where
    -- the statements of a read
    abbrev pub reading :
        {A : Type 0}
        → (A → Answer C)
        → Exec Blog (Reply A)
        → Exec (Session (Store C)) (Reply (Answer C))
    reading f m = do reply ← execute (on_blog m); pure (with_body f reply)

    abbrev pub writing : Exec Blog Entity → Exec (Session (Store C)) (Reply (Answer C))
    writing m = do
      post ← transactional (execute (on_blog m))
      pure (uncached (admin_post (to_admin post)))

    -- a route with the dependency `require_admin`
    abbrev pub behind_admin :
        (String → Exec (Session (Store C)) (Reply (Answer C))) → Exec (State C K) (Reply (Answer C))
    behind_admin body = in_session (
        in_accounts (require_admin settings w.jwt call.draw.app_now call.user_id call.creds)
        >>= body)

    unfoldable pub route : Endpoint C → Exec (State C K) (Reply (Answer C))
    route (posts_get page page_size tag kind) =
        in_session (reading posts_page (list_posts call.env page page_size tag kind))
    route (post_get post_id) = in_session (reading post_detail (get_post call.env post_id))
    route (nav_get post_id) = in_session (reading post_nav (get_post_nav call.env post_id))
    route (search_get q page page_size) =
        in_session (reading posts_page (search_route call.env w.ilike q page page_size))
    route tags_get = in_session (reading tag_list (list_tags call.env))
    route (tag_get name) = in_session (reading tag_detail (get_tag call.env name))
    route (content_get key) = in_session (do
      validate_key key
      row ← execute (on_contents (read_content key))
      pure (cached (content_read row)))
    route healthz_get = pure (uncached status_ok)
    route (admin_posts_get page page_size tag kind status) =
        behind_admin
          (λ _. reading admin_page (list_admin_posts call.env page page_size tag kind status))
    route (admin_post_get post_id) =
        behind_admin (λ _. reading admin_post (get_admin_post call.env post_id))
    route (post_create payload) = behind_admin (λ _. writing (create call.env payload))
    route (post_patch post_id payload) =
        behind_admin (λ _. writing (update_fields call.env post_id payload))
    route (post_publish post_id) = behind_admin (λ _. writing (publish call.env post_id))
    route (post_delete post_id) = behind_admin (λ _. do
      transactional (execute (on_blog (delete_by_id call.env post_id)))
      pure (uncached no_content))
    route (content_put key content) = behind_admin (λ _. do
      validate_key key
      row ← transactional (execute (on_contents (upsert w.json call.env.db_now key content)))
      pure (uncached (content_read row)))
    route (login_post username password) = in_session (do
      pair ← transactional (
          execute
            (on_accounts (login settings w.jwt w.bcrypt w.dummy_hash call.draw username password)))
      pure (uncached (token_pair pair)))
    route (refresh_post token) = in_session (do
      pair ← in_accounts (refresh settings w.jwt call.draw token)
      pure (uncached (token_pair pair)))
    route logout_post = behind_admin (λ subject. do
      transactional (execute (on_accounts (logout_body settings w.jwt subject)))
      pure (uncached status_ok))
    route jwks_get = do
      keys ← in_keys (jwks w.key_library w.rsa w.config)
      pure (uncached (key_set keys))

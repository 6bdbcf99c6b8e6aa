-- ===== src/App/Endpoints.antt =====
-- The endpoints that `root_router` includes, with their paths and methods, and their responses.
use Prim.Native.String.{◌++◌ as str_append}
use blog_be.Prelude.{ℕ, String, Bool, true, false, Option, List}
use blog_be.Pagination.{PaginatedResponse}
use blog_be.Auth.Routes.{TokenPair}
use blog_be.Content.{ContentRead}
use blog_be.Database.{PostKind, PostStatus}
use blog_be.Post.Schemas.{
  PostCreate, PostUpdate, PostPublic, PostDetail, PostAdmin, PostNavResponse,
}
use blog_be.Tag.{TagRead}
use blog_be.Tag.Routes.{TagDetail}

-- A route that FastAPI has matched, with its parameters and its validated body. A document of the
-- content endpoints is of type `C`.
pub data Endpoint (C : Type 0) : Type 0 where
  posts_get : ℕ → ℕ → Option String → Option PostKind → Endpoint C
  post_get nav_get tag_get content_get : String → Endpoint C
  search_get : List ℕ → ℕ → ℕ → Endpoint C
  tags_get jwks_get healthz_get : Endpoint C
  admin_posts_get : ℕ → ℕ → Option String → Option PostKind → Option PostStatus → Endpoint C
  admin_post_get : String → Endpoint C
  post_create : PostCreate → Endpoint C
  post_patch : String → PostUpdate → Endpoint C
  post_delete post_publish : String → Endpoint C
  content_put : String → C → Endpoint C
  login_post : String → String → Endpoint C
  refresh_post : String → Endpoint C
  logout_post : Endpoint C

-- the response bodies, those of the middleware among them
pub data Answer (C : Type 0) : Type 0 where
  posts_page : PaginatedResponse PostPublic → Answer C
  post_detail : PostDetail → Answer C
  post_nav : PostNavResponse → Answer C
  tag_list : List TagRead → Answer C
  tag_detail : TagDetail → Answer C
  content_read : ContentRead C → Answer C
  admin_page : PaginatedResponse PostAdmin → Answer C
  admin_post : PostAdmin → Answer C
  token_pair : TokenPair → Answer C
  key_set : List (List (String × String)) → Answer C
  no_content status_ok : Answer C
  too_many_requests gateway_hop_missing : Answer C

module _ {C : Type 0} where
  -- the prefixes of the routers, and the paths of the decorators
  abbrev pub path_of : Endpoint C → String
  path_of (posts_get page page_size tag kind) = "/v1/posts"
  path_of (post_get post_id) = str_append "/v1/posts/" post_id
  path_of (nav_get post_id) = str_append "/v1/posts/" (str_append post_id "/nav")
  path_of (tag_get name) = str_append "/v1/tags/" name
  path_of (content_get key) = str_append "/v1/content/" key
  path_of (search_get q page page_size) = "/v1/search"
  path_of tags_get = "/v1/tags"
  path_of jwks_get = "/.well-known/jwks.json"
  path_of healthz_get = "/healthz"
  path_of (admin_posts_get page page_size tag kind status) = "/v1/admin/posts"
  path_of (admin_post_get post_id) = str_append "/v1/admin/posts/" post_id
  path_of (post_create payload) = "/v1/posts"
  path_of (post_patch post_id payload) = str_append "/v1/posts/" post_id
  path_of (post_delete post_id) = str_append "/v1/posts/" post_id
  path_of (post_publish post_id) = str_append "/v1/posts/" (str_append post_id "/publish")
  path_of (content_put key content) = str_append "/v1/content/" key
  path_of (login_post username password) = "/v1/auth/login"
  path_of (refresh_post token) = "/v1/auth/refresh"
  path_of logout_post = "/v1/auth/logout"

  abbrev pub method_of : Endpoint C → String
  method_of (post_create payload) = "POST"
  method_of (post_patch post_id payload) = "PATCH"
  method_of (post_delete post_id) = "DELETE"
  method_of (post_publish post_id) = "POST"
  method_of (content_put key content) = "PUT"
  method_of (login_post username password) = "POST"
  method_of (refresh_post token) = "POST"
  method_of logout_post = "POST"
  method_of _ = "GET"

  -- the endpoints that the gateway's check lets through
  abbrev pub is_probe : Endpoint C → Bool
  is_probe jwks_get = true
  is_probe healthz_get = true
  is_probe _ = false

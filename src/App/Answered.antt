-- ===== src/App/Answered.antt =====
-- How the application answers the requests for posts, tags and contents.
use blog_be.Prelude.{Bool, true, false}
use blog_be.Exec.{Exec}
use blog_be.Session.{Session}
use blog_be.App.Store.{Store}
use blog_be.App.Endpoints.{Endpoint, jwks_get, content_put, login_post, refresh_post, logout_post}

-- the endpoints whose routes use neither keys nor new tokens and store no document
abbrev pub is_site_endpoint : {C : Type 0} → Endpoint C → Bool
is_site_endpoint jwks_get = false
is_site_endpoint (content_put key content) = false
is_site_endpoint (login_post username password) = false
is_site_endpoint (refresh_post token) = false
is_site_endpoint logout_post = false
is_site_endpoint _ = true

-- ===== src/App/Hop.antt =====
-- The application in production behind its gateway.
use Prim.Native.Char.{Char, code}
use Prim.Native.String.{String, ◌++◌ as str_append}
use Prim.Native.String.append.{cons}
use blog_be.Prelude.{
  ℕ, Bool-cases, ◌≡◌, ◌≢◌, refl, true, false, Option, none, some, string_eq, arith, inl, inr, any,
  ◌==◌, ◌∙◌, ap,
}
use blog_be.Exec.{ok}
use blog_be.Server.Http.{uncached}
use blog_be.Server.Gateway.{gateway_dispatch, gateway_passes, init_middleware, probe_paths}
use blog_be.Config.{is_prod}
use blog_be.App.Endpoints.{
  Endpoint, posts_get, post_get, nav_get, tag_get, content_get, search_get, tags_get, jwks_get,
  healthz_get, admin_posts_get, admin_post_get, post_create, post_patch, post_delete, post_publish,
  content_put, login_post, refresh_post, logout_post, gateway_hop_missing, is_probe, path_of,
}
use blog_be.App.Handlers.{World, Call, State}
use blog_be.App.Serve.{request_of, handle}

-- the second character, which is `v` in the paths of `v1_router`
abbrev second_code : String → ℕ
second_code String.[] = 0
second_code (String.◌∷◌ c String.[]) = 0
second_code (String.◌∷◌ c (String.◌∷◌ d s)) = code d

second_code-append :
    (c d : Char) (s t : String)
    → second_code (str_append (String.◌∷◌ c (String.◌∷◌ d s)) t) ≡ code d
second_code-append c d s t =
    ap second_code (λ i. cons c (String.◌∷◌ d s) t i)
    ∙ ap (λ u. second_code (String.◌∷◌ c u)) (λ i. cons d s t i)

other_second : (p q : String) → second_code p ≢ second_code q → (p == q) ≡ false
other_second p q h = elim (Bool-cases (p == q)) [
  | inl e ↦ absurd (h (ap second_code ((string_eq.beq_iff p q).0 e)))
  | inr e ↦ e
]

not_probed : (p : String) → second_code p ≡ b'v' → any (λ path. p == path) probe_paths ≡ false
not_probed p h =
    rw
      (
        other_second p "/healthz" (λ e. ground arith),
        other_second p "/.well-known/jwks.json" (λ e. ground arith),
      )
      refl

append-not_probed :
    (rest s : String)
    → any (λ path. str_append (String.◌∷◌ "/" (String.◌∷◌ "v" rest)) s == path) probe_paths ≡ false
append-not_probed rest s =
    not_probed (str_append (String.◌∷◌ "/" (String.◌∷◌ "v" rest)) s)
      (second_code-append "/" "v" rest s)

path_of-not_probed :
    {C : Type 0} (endpoint : Endpoint C)
    → is_probe endpoint ≡ false
    → any (λ path. path_of endpoint == path) probe_paths ≡ false
path_of-not_probed (posts_get page page_size tag kind) h = refl
path_of-not_probed (post_get post_id) h = append-not_probed "1/posts/" post_id
path_of-not_probed (nav_get post_id) h = append-not_probed "1/posts/" (str_append post_id "/nav")
path_of-not_probed (tag_get name) h = append-not_probed "1/tags/" name
path_of-not_probed (content_get key) h = append-not_probed "1/content/" key
path_of-not_probed (search_get q page page_size) h = refl
path_of-not_probed tags_get h = refl
path_of-not_probed jwks_get h = absurd (cc)
path_of-not_probed healthz_get h = absurd (cc)
path_of-not_probed (admin_posts_get page page_size tag kind status) h = refl
path_of-not_probed (admin_post_get post_id) h = append-not_probed "1/admin/posts/" post_id
path_of-not_probed (post_create payload) h = refl
path_of-not_probed (post_patch post_id payload) h = append-not_probed "1/posts/" post_id
path_of-not_probed (post_delete post_id) h = append-not_probed "1/posts/" post_id
path_of-not_probed (post_publish post_id) h =
    append-not_probed "1/posts/" (str_append post_id "/publish")
path_of-not_probed (content_put key content) h = append-not_probed "1/content/" key
path_of-not_probed (login_post username password) h = refl
path_of-not_probed (refresh_post token) h = refl
path_of-not_probed logout_post h = refl

header_differs :
    (expected : String) (header : Option String)
    → header ≢ some expected
    → (elim header [ none ↦ false | some value ↦ value == expected ]) ≡ false
header_differs expected none h = refl
header_differs expected (some value) h = ground (arith, string_eq.beq_iff value expected)

module _ {C K P : Type 0} (w : World C K P) (call : Call C) where
  -- In production with a gateway secret that is set, a request to any endpoint but the two that are
  -- probed, without that secret in its header, is answered by 401 and changes nothing: neither the
  -- database nor what the process holds.
  pub handle_closed :
      (st : State C K)
      → is_prod w.config ≡ true
      → w.config.gateway_shared_secret ≢ ""
      → is_probe call.endpoint ≡ false
      → call.gateway_auth ≢ some w.config.gateway_shared_secret
      → handle w call st ≡ (ok (uncached gateway_hop_missing), st)
  unfolding handle init_middleware
  handle_closed st prod set closed differs =
      let stopped : gateway_dispatch w.config.gateway_shared_secret (request_of call) ≡ false =
        gateway_passes w.config.gateway_shared_secret (request_of call) set
        ∙ rw
            (
              path_of-not_probed call.endpoint closed,
              header_differs w.config.gateway_shared_secret call.gateway_auth differs,
            )
            refl in
      rw (prod, stopped) refl

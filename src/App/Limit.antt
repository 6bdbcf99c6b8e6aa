-- ===== src/App/Limit.antt =====
-- The login limit of the application over a history of requests.
use blog_be.Prelude.{
  ℕ, ◌≤◌, ◌≡◌, refl, ◌∙◌, sym, String, Bool, false, ◌&&◌, List, [], ◌∷◌, map, if◌then◌else◌, inl,
  inr, Bool-cases,
}
use blog_be.Exec.{Result, ok, err, bind}
use blog_be.Server.Http.{Request, uncached}
use blog_be.Server.RateLimit.{set_attempts, is_login, peer, dispatch}
use blog_be.Server.RateLimit.Laws.{
  Log, no_attempts, count_within, serve, IsMonotonic, logins_limited,
}
use blog_be.Auth.Keys.{jwks}
use blog_be.Config.{is_prod}
use blog_be.App.Endpoints.{
  Endpoint, posts_get, post_get, nav_get, tag_get, content_get, search_get, tags_get, jwks_get,
  healthz_get, admin_posts_get, admin_post_get, post_create, post_patch, post_delete, post_publish,
  content_put, login_post, refresh_post, logout_post, key_set,
}
use blog_be.App.Handlers.{World, Call, State, in_keys, route}
use blog_be.App.Serve.{request_of, fresh_session, handle}
use blog_be.App.Middleware.{passed, counted, handle-passed, handle-stopped}
use blog_be.App.LoginPath.{is_login_endpoint, is_login-endpoint}

keep_attempts :
    {C K A B : Type 0} (x : Result A × State C K) (f : A → B)
    → (bind x (λ a s. (ok (f a), s))).1.attempts ≡ x.1.attempts
keep_attempts (ok a, st) f = refl
keep_attempts (err e, st) f = refl

pub is_login-request_of :
    {C : Type 0} (call : Call C) → is_login (request_of call) ≡ is_login_endpoint call.endpoint
unfolding is_login
is_login-request_of call = is_login-endpoint call.endpoint

module _ {C K P : Type 0} (w : World C K P) where
  -- no route touches the attempts
  route-attempts :
      (call : Call C) (st : State C K) (endpoint : Endpoint C)
      → (route w call endpoint st).1.attempts ≡ st.attempts
  unfolding route
  route-attempts call st jwks_get =
      keep_attempts (in_keys (jwks w.key_library w.rsa w.config) st)
        (λ keys. uncached (key_set keys))
  route-attempts call st (login_post username password) = refl
  route-attempts call st (post_publish post_id) = refl
  route-attempts call st (post_create payload) = refl
  route-attempts call st (refresh_post token) = refl
  route-attempts call st logout_post = refl
  route-attempts call st (posts_get page page_size tag kind) = refl
  route-attempts call st (post_get post_id) = refl
  route-attempts call st (nav_get post_id) = refl
  route-attempts call st (tag_get name) = refl
  route-attempts call st (content_get key) = refl
  route-attempts call st (search_get q page page_size) = refl
  route-attempts call st tags_get = refl
  route-attempts call st healthz_get = refl
  route-attempts call st (admin_posts_get page page_size tag kind status) = refl
  route-attempts call st (admin_post_get post_id) = refl
  route-attempts call st (post_patch post_id payload) = refl
  route-attempts call st (post_delete post_id) = refl
  route-attempts call st (content_put key content) = refl

  handle-attempts :
      (call : Call C) (st : State C K) → (handle w call st).1.attempts ≡ (passed w call st).1
  handle-attempts call st = elim (Bool-cases (passed w call st).0) [
    | inl pass ↦
        rw (handle-passed w call st pass)
          (route-attempts call (fresh_session (counted w call st)) call.endpoint)
    | inr stop ↦ rw (handle-stopped w call st stop) refl
  ]

  pub passed-dispatch :
      is_prod w.config ≡ false
      → (call : Call C) (st : State C K)
      → passed w call st ≡ dispatch w.limits call.tick (request_of call) st.attempts
  unfolding passed
  passed-dispatch local call st = rw local refl

  -- the logins of each peer that have reached the route, with their times, the newest first
  abbrev pub note_login : Log → Call C → Bool → Log
  note_login log call reached =
      if is_login_endpoint call.endpoint && reached
      then set_attempts log (peer (request_of call)) (call.tick ∷ log (peer (request_of call)))
      else log

  abbrev pub login_log : List (Call C) → State C K → Log → Log
  login_log [] st log = log
  login_log (call ∷ calls) st log =
      login_log calls (handle w call st).1 (note_login log call (passed w call st).0)

  abbrev pub timed : Call C → ℕ × Request
  timed call = (call.tick, request_of call)

  -- outside production the log is that of the limiter
  login_log-serve :
      is_prod w.config ≡ false
      → (calls : List (Call C)) (st : State C K) (log : Log)
      → login_log calls st log ≡ (serve w.limits (map timed calls) (st.attempts, log)).1
  login_log-serve local [] st log = refl
  login_log-serve local (call ∷ calls) st log =
      login_log-serve local calls (handle w call st).1 _
      ∙ rw (handle-attempts call st, passed-dispatch local call st, sym (is_login-request_of call))
          refl

  -- Outside production, from the start of the process and for requests at times that do not fall, at
  -- most `max_attempts` requests of one peer reach the route of login in any window, wherever the
  -- window ends; the requests to the other endpoints do not count.
  pub logins_reach_limited :
      (calls : List (Call C)) (st : State C K) (ip : String) (at : ℕ)
      → is_prod w.config ≡ false
      → st.attempts ≡ no_attempts
      → IsMonotonic w.limits 0 (map timed calls)
      → count_within w.limits at (login_log calls st no_attempts ip) ≤ w.limits.max_attempts
  logins_reach_limited calls st ip at local fresh monotonic =
      rw (login_log-serve local calls st no_attempts, fresh)
        (logins_limited w.limits (map timed calls) ip at monotonic)

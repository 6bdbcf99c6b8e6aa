-- ===== src/App/Middleware.antt =====
-- The middleware of the application: what it lets through to the routes.
use blog_be.Prelude.{◌≡◌, refl, Bool, true, false, if◌then◌else◌, inl, inr, Bool-cases}
use blog_be.Server.RateLimit.{Attempts, dispatch}
use blog_be.Server.Gateway.{gateway_dispatch, init_middleware}
use blog_be.Config.{is_prod}
use blog_be.App.Handlers.{World, Call, State, route}
use blog_be.App.Serve.{request_of, fresh_session, removed, handle}

module _ {C K P : Type 0} (w : World C K P) (call : Call C) where
  -- whether the request reaches its route, and the attempts then
  unfoldable pub passed : State C K → Bool × Attempts
  passed st =
      if is_prod w.config
      then (gateway_dispatch w.config.gateway_shared_secret (request_of call), st.attempts)
      else dispatch w.limits call.tick (request_of call) st.attempts

  abbrev pub counted : State C K → State C K
  counted st = record st { attempts = (passed st).1 }

  -- a request that passes is answered by its route, in a session of its own
  pub handle-passed :
      (st : State C K)
      → (passed st).0 ≡ true
      → handle w call st ≡ removed (route w call call.endpoint (fresh_session (counted st)))
  unfolding handle init_middleware passed
  handle-passed st h = elim (Bool-cases (is_prod w.config)) [
    | inl prod ↦ rw (prod, rw prod at h) refl
    | inr local ↦ rw (local, rw local at h) refl
  ]

  -- any other changes nothing but the attempts
  pub handle-stopped : (st : State C K) → (passed st).0 ≡ false → (handle w call st).1 ≡ counted st
  unfolding handle init_middleware passed
  handle-stopped st h = elim (Bool-cases (is_prod w.config)) [
    | inl prod ↦ rw (prod, rw prod at h) refl
    | inr local ↦ rw (local, rw local at h) refl
  ]

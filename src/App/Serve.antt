-- ===== src/App/Serve.antt =====
-- A request through the middleware that `init_middleware` of app/server.py lists.
use blog_be.Prelude.{ℕ, none, List, [], ◌∷◌, if◌then◌else◌}
use blog_be.Exec.{Result, Exec, ok}
use blog_be.Session.{rollback}
use blog_be.Server.Http.{Request, Reply, uncached}
use blog_be.Server.RateLimit.{Limits, dispatch}
use blog_be.Server.Gateway.{
  Middleware, gateway_shared_secret, cors, security_headers, login_rate_limit, sqlalchemy,
  gateway_dispatch, init_middleware,
}
use blog_be.App.Endpoints.{Answer, path_of, method_of, gateway_hop_missing, too_many_requests}
use blog_be.App.Handlers.{World, Call, State, route}

abbrev pub request_of : {C : Type 0} → Call C → Request
request_of call = record {
  path = path_of call.endpoint;
  method = method_of call.endpoint;
  client_host = call.client_host;
  gateway_auth = call.gateway_auth;
}

module _ {C K : Type 0} where
  -- a fresh session on what is committed
  abbrev pub fresh_session : State C K → State C K
  fresh_session st = record st { db = record { committed = st.db.committed; working = none } }

  -- `session.remove()`
  abbrev pub removed : Result (Reply (Answer C)) × State C K → Result (Reply (Answer C)) × State C K
  removed (r, st) = (r, record st { db = rollback st.db })

  module _ (limits : Limits) (tick : ℕ) (request : Request) where
    -- The application inside a list of middleware. `CORSMiddleware` and `SecurityHeadersMiddleware`
    -- pass every request on and set headers that are not part of the replies here; a preflight
    -- request, which `CORSMiddleware` answers itself, is not for an endpoint.
    abbrev pub inside :
        List Middleware → Exec (State C K) (Reply (Answer C)) → Exec (State C K) (Reply (Answer C))
    inside [] app st = app st
    inside (gateway_shared_secret expected ∷ rest) app st =
        if gateway_dispatch expected request
        then inside rest app st
        else (ok (uncached gateway_hop_missing), st)
    inside (cors args ∷ rest) app st = inside rest app st
    inside (security_headers ∷ rest) app st = inside rest app st
    inside (login_rate_limit ∷ rest) app st =
        let (passes, attempts) = dispatch limits tick request st.attempts in
        if passes
        then inside rest app (record st { attempts = attempts })
        else (ok (uncached too_many_requests), record st { attempts = attempts })
    inside (sqlalchemy ∷ rest) app st = removed (inside rest app (fresh_session st))

-- one request, from the outermost middleware to the route
unfoldable pub handle :
    {C K P : Type 0} → World C K P → Call C → Exec (State C K) (Reply (Answer C))
handle w call =
    inside w.limits call.tick (request_of call) (init_middleware w.config)
      (route w call call.endpoint)

-- ===== src/Server/Gateway.antt =====
-- `GatewaySharedSecretMiddleware` and `init_middleware` of app/server.py.
use blog_be.Prelude.{
  ℕ, String, ◌≡◌, ◌≢◌, Bool, true, false, ◌||◌, none, some, List, [], ◌∷◌, ◌++◌, ◌==◌, string_eq,
  if◌then◌else◌, arith, any,
}
use blog_be.Server.Http.{Request}
use blog_be.Config.{Config, is_prod, cors_origins_list}

abbrev pub probe_paths : List String
probe_paths = "/healthz" ∷ "/.well-known/jwks.json" ∷ []

-- `_constant_time_equal`: `hmac.compare_digest` on the UTF-8 of two texts is their equality
unfoldable pub constant_time_equal : String → String → Bool
constant_time_equal a b = a == b

-- `headers.get(self.HEADER, "")`
abbrev pub supplied : Request → String
supplied request = elim request.gateway_auth [ none ↦ "" | some value ↦ value ]

-- `dispatch`: true if the request is passed on, false if it is answered by 401
unfoldable pub gateway_dispatch : String → Request → Bool
unfolding constant_time_equal
gateway_dispatch expected request =
    if expected == ""
    then true
    else if any (λ path. request.path == path) probe_paths
    then true
    else constant_time_equal (supplied request) expected

-- With a secret that is set, a request is passed on exactly if it is for a probe path or carries the
-- secret; so a request without the header passes only to a probe path.
pub gateway_passes :
    (expected : String) (request : Request)
    → expected ≢ ""
    → gateway_dispatch expected request ≡ (
        any (λ path. request.path == path) probe_paths
        || (elim request.gateway_auth [ none ↦ false | some value ↦ value == expected ]))
unfolding gateway_dispatch
gateway_passes expected request set =
    ground (arith, string_eq.beq_iff expected "", string_eq.beq_iff "" expected)

-- the arguments of `CORSMiddleware`
pub record CorsArgs : Type 0 where
  pub allow_origins : List (List ℕ)
  pub allow_credentials : Bool
  pub allow_methods : List String
  pub allow_headers : List String

abbrev pub cors_args : Config → CorsArgs
cors_args cfg = record {
  allow_origins = cors_origins_list cfg;
  allow_credentials = true;
  allow_methods = "GET" ∷ "POST" ∷ "PUT" ∷ "PATCH" ∷ "DELETE" ∷ "OPTIONS" ∷ [];
  allow_headers = "Authorization" ∷ "Content-Type" ∷ [];
}

-- the classes that `init_middleware` lists, with their arguments, the outermost first
pub data Middleware : Type 0 where
  gateway_shared_secret : String → Middleware
  cors : CorsArgs → Middleware
  security_headers login_rate_limit sqlalchemy : Middleware

unfoldable pub init_middleware : Config → List Middleware
init_middleware cfg =
    (if is_prod cfg
      then gateway_shared_secret cfg.gateway_shared_secret ∷ []
      else cors (cors_args cfg) ∷ security_headers ∷ login_rate_limit ∷ [])
    ++ sqlalchemy ∷ []

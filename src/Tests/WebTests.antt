-- ===== src/Tests/WebTests.antt =====
-- The middleware.
use blog_be.Prelude.{ℕ, String, ◌≡◌, refl, true, none, some, List, [], ◌∷◌, arith, string_eq}
use blog_be.Server.Http.{Request}
use blog_be.Server.RateLimit.{Limits, dispatch}
use blog_be.Server.RateLimit.Laws.{serve, no_attempts}
use blog_be.Server.RateLimit.Recovery.{login_recovers}

abbrev pub limits : Limits
limits = record { max_attempts = 2; window = 60 }

abbrev login_from : String → Request
login_from host = record {
  path = "/v1/auth/login";
  method = "POST";
  client_host = some host;
  gateway_auth = none;
}

abbrev burst : List (ℕ × Request)
burst =
    (10, login_from "10.0.0.1")
    ∷ (11, login_from "10.0.0.1")
    ∷ (12, login_from "10.0.0.1")
    ∷ (71, login_from "10.0.0.1")
    ∷ []

-- the third attempt is refused, and the fourth comes when the first is 61 ticks old
burst_log : (serve limits burst (no_attempts, no_attempts)).1 "10.0.0.1" ≡ 71 ∷ 11 ∷ 10 ∷ []
unfolding dispatch
burst_log = refl

login_recovers_example :
    (dispatch limits 131
      (login_from "10.0.0.1")
      (serve limits burst (no_attempts, no_attempts)).0).0
    ≡ true
login_recovers_example =
    login_recovers limits burst 71 131 (login_from "10.0.0.1") (omega arith) (omega arith)
      (omega arith)

-- ===== src/Auth/Refusal.antt =====
-- What `require_admin` refuses, it refuses by 401 or 403, if the signing key loads.
use blog_be.Prelude.{
  ℕ, String, ◌≡◌, refl, Bool, true, false, Option, none, some, string_eq, nat_eq, if◌then◌else◌,
  arith,
}
use blog_be.Exec.{ok, lift, or_raise}
use blog_be.Exec.Answered.{answered, answered-bind, answered-or_raise}
use blog_be.Session.{Session, execute}
use blog_be.Auth.Repository.{Admin, Accounts, get_admin}
use blog_be.Auth.Token.{
  or_invalid, AuthConfig, Jwt, Payload, Claim, text, int, bool, TokenType, check_subject,
  check_type, check_version, check_current, decode_token, verify_subject, verify_bearer,
  require_admin, require_admin_from_header, finally_rollback,
}

module _ (cfg : AuthConfig) (jwt : Jwt) where
  answered-check_subject : (c : Option Claim) → answered (check_subject cfg jwt c) ≡ true
  answered-check_subject none = refl
  answered-check_subject (some (text subject)) = ground arith
  answered-check_subject (some _) = refl

  answered-check_type :
      (c : Option Claim) (expected : TokenType) → answered (check_type cfg jwt c expected) ≡ true
  answered-check_type none expected = refl
  answered-check_type (some (text typ)) expected = ground arith
  answered-check_type (some _) expected = refl

  answered-check_version : (c : Option Claim) → answered (check_version cfg jwt c) ≡ true
  answered-check_version none = refl
  answered-check_version (some (int v)) = refl
  answered-check_version (some (bool true)) = refl
  answered-check_version (some (bool false)) = refl
  answered-check_version (some _) = refl

  answered-check_current : (v : ℕ) (a : Option Admin) → answered (check_current cfg jwt v a) ≡ true
  answered-check_current v none = refl
  answered-check_current v (some admin) = ground arith

  answered-or_invalid : (p : Option Payload) → answered (or_invalid cfg jwt p) ≡ true
  answered-or_invalid none = refl
  answered-or_invalid (some payload) = refl

  answered-decode_token :
      {key : String}
      → cfg.signing_key ≡ ok key
      → (now : ℕ) (token : String) → answered (decode_token cfg jwt now token) ≡ true
  unfolding decode_token
  answered-decode_token {key} loads now token =
      rw loads (answered-or_invalid (jwt.decode key now cfg.jwt_issuer cfg.jwt_audience token))

  answered-verify_subject :
      (payload : Payload) (expected : TokenType) (s : Session Accounts)
      → answered (verify_subject cfg jwt payload expected s).0 ≡ true
  unfolding verify_subject execute
  answered-verify_subject payload expected s =
      answered-bind (lift (check_subject cfg jwt payload.sub) s) _
        (answered-check_subject payload.sub)
        (λ subject s.
          answered-bind (lift (check_type cfg jwt payload.typ expected) s) _
            (answered-check_type payload.typ expected)
            (λ _ s.
              answered-bind (lift (check_version cfg jwt payload.tv) s) _
                (answered-check_version payload.tv)
                (λ version s.
                  answered-bind
                    (finally_rollback cfg jwt
                      (execute (λ d. (check_current cfg jwt version (get_admin subject d), d))) s)
                    _ (answered-check_current version _) (λ _ _. refl))))

  answered-from_header :
      (user_id : Option String) → answered (require_admin_from_header cfg jwt user_id) ≡ true
  unfolding require_admin_from_header
  answered-from_header none = refl
  answered-from_header (some user_id) = ground arith

  answered-verify_bearer :
      {key : String}
      → cfg.signing_key ≡ ok key
      → (now : ℕ) (creds : Option String) (s : Session Accounts)
      → answered (verify_bearer cfg jwt now creds s).0 ≡ true
  unfolding verify_bearer
  answered-verify_bearer {key} loads now creds s =
      answered-bind (or_raise creds _ s) _ (answered-or_raise creds _ s refl) (λ token s.
        answered-bind (lift (decode_token cfg jwt now token) s) _
          (answered-decode_token {key = key} loads now token)
          (λ payload s. answered-verify_subject payload TokenType.access s))

  pub answered-require_admin :
      {key : String}
      → cfg.signing_key ≡ ok key
      → (now : ℕ) (user_id creds : Option String) (s : Session Accounts)
      → answered (require_admin cfg jwt now user_id creds s).0 ≡ true
  unfolding require_admin
  answered-require_admin {key} loads now user_id creds s = by_env cfg.is_prod
    where
      by_env :
          (is_prod : Bool)
          → answered
              ((if is_prod
                  then lift (require_admin_from_header cfg jwt user_id)
                  else verify_bearer cfg jwt now creds)
                s).0
            ≡ true
      by_env true = answered-from_header user_id
      by_env false = answered-verify_bearer {key = key} loads now creds s

-- ===== src/Auth/Routes.antt =====
-- api/v1/auth.py: login, refresh and logout.
use blog_be.Prelude.{
  ℕ, ◌+◌, ◌*◌, String, Bool, true, false, not, ◌||◌, Option, none, some, ◌==◌, string_eq,
  if◌then◌else◌,
}
use blog_be.Error.{unauthorized}
use blog_be.Exec.{Result, ok, err, Exec, pure, raise, gets, lift, raise_if, ◌>>=◌, ◌>>◌}
use blog_be.Session.{Session, execute, begin, transactional, sqlalchemy_middleware}
use blog_be.Auth.Repository.{
  Accounts, RefreshToken, rotated, refresh_status_eq, get_admin, upsert_admin,
  increment_token_version, record_refresh_token, get_refresh_token, claim_refresh_token_rotation,
  revoke_refresh_tokens,
}
use blog_be.Auth.Password.{Bcrypt, verify_password}
use blog_be.Auth.Token.{
  AuthConfig, Jwt, issue_access_token, issue_refresh_token, require_admin, verify_refresh_token,
  check_current, then_result,
}

-- What one request draws from outside: the two clocks, in seconds, and the ids of `uuid4` for the
-- refresh token and the access token that it may issue.
pub record Draw : Type 0 where
  pub app_now : ℕ
  pub db_now : ℕ
  pub refresh_jti : String
  pub access_jti : String

pub record TokenPair : Type 0 where
  pub access_token : String
  pub refresh_token : String

module _ (cfg : AuthConfig) (jwt : Jwt) where
  -- `_refresh_expires_at`
  abbrev pub refresh_expires_at : ℕ → ℕ
  refresh_expires_at now = now + cfg.refresh_expire_minutes * 60

  -- the issue of a refresh token, and its row
  unfoldable pub start_family : Draw → String → ℕ → Exec Accounts String
  start_family draw subject token_version = do
    token_and_jti ←
        lift (issue_refresh_token cfg jwt subject token_version draw.app_now draw.refresh_jti)
    let (token, jti) = token_and_jti
    record_refresh_token draw.db_now jti subject (refresh_expires_at draw.app_now)
    pure token

  -- `TokenPair(access_token=issue_access_token(…), refresh_token=…)`
  abbrev pub pair_of : Draw → String → ℕ → String → Result TokenPair
  pair_of draw subject token_version refresh_token =
      then_result (issue_access_token cfg jwt subject token_version draw.app_now draw.access_jti)
        (λ token. ok (record { access_token = token; refresh_token = refresh_token }))

  -- `login`, where `dummy_hash` is `_DUMMY_HASH`
  unfoldable pub login : Bcrypt → String → Draw → String → String → Exec Accounts TokenPair
  login lib dummy_hash draw username password = do
    let username_ok = username == cfg.admin_username
    let expected_hash = if username_ok then cfg.admin_password_hash else dummy_hash
    let password_ok = verify_password lib password expected_hash
    raise_if (not password_ok || not username_ok) (unauthorized "Invalid credentials")
    admin ← upsert_admin draw.db_now cfg.admin_username cfg.admin_password_hash
    refresh_token ← start_family draw cfg.admin_username admin.token_version
    lift (pair_of draw cfg.admin_username admin.token_version refresh_token)

  -- what `refresh` does with a jti that it has not claimed: true if the reuse was detected
  abbrev pub on_unclaimed : String → Option RefreshToken → Exec Accounts Bool
  on_unclaimed subject none = raise (unauthorized "Token has been revoked")
  on_unclaimed subject (some row) =
      if row.status == rotated
      then (do increment_token_version subject; revoke_refresh_tokens subject; pure true)
      else raise (unauthorized "Token has been revoked")

  -- the two branches on the claim: the new refresh token, or `none` if a reuse was detected
  abbrev pub on_claim : Draw → String → ℕ → String → Bool → Exec Accounts (Option String)
  on_claim draw subject tv jti true = do token ← start_family draw subject tv; pure (some token)
  on_claim draw subject tv jti false = do
    row ← gets (get_refresh_token jti)
    on_unclaimed subject row
    pure none

  -- the block `async with session.begin()` of `refresh`
  unfoldable pub rotate : Draw → String → ℕ → String → Exec Accounts (Option String)
  rotate draw subject tv jti = do
    (λ d. (check_current cfg jwt tv (get_admin subject d), d))
    claimed ← claim_refresh_token_rotation draw.db_now jti
    on_claim draw subject tv jti claimed

  abbrev pub finish_refresh : Draw → String → ℕ → Option String → Result TokenPair
  finish_refresh draw subject tv none = err (unauthorized "Token reuse detected")
  finish_refresh draw subject tv (some token) = pair_of draw subject tv token

  -- `refresh`
  unfoldable pub refresh : Draw → String → Exec (Session Accounts) TokenPair
  refresh draw token = do
    claims ← verify_refresh_token cfg jwt draw.app_now token
    let (subject, tv, jti) = claims
    new_refresh ← begin (execute (rotate draw subject tv jti))
    lift (finish_refresh draw subject tv new_refresh)

  unfoldable pub logout_body : String → Exec Accounts (Unit {0})
  logout_body subject = do increment_token_version subject; revoke_refresh_tokens subject; pure tt

  -- `logout`, behind its dependency `require_admin`
  unfoldable pub logout : Draw → Option String → Option String → Exec (Session Accounts) (Unit {0})
  logout draw user_id creds = do
    subject ← require_admin cfg jwt draw.app_now user_id creds
    transactional (execute (logout_body subject))

  -- the three requests, each in the session that the middleware gives it
  unfoldable pub login_request :
      Bcrypt → String → Draw → String → String → Accounts → Result TokenPair × Accounts
  login_request lib dummy_hash draw username password =
      sqlalchemy_middleware (transactional (execute (login lib dummy_hash draw username password)))

  unfoldable pub refresh_request : Draw → String → Accounts → Result TokenPair × Accounts
  refresh_request draw token = sqlalchemy_middleware (refresh draw token)

  unfoldable pub logout_request :
      Draw → Option String → Option String → Accounts → Result (Unit {0}) × Accounts
  logout_request draw user_id creds = sqlalchemy_middleware (logout draw user_id creds)

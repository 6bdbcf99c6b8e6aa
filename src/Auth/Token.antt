-- ===== src/Auth/Token.antt =====
-- app/core/security/auth.py: issuing tokens, and the checks on a presented token.
use blog_be.Prelude.{
  ℕ, ◌+◌, ◌*◌, String, ◌≡◌, Bool, true, false, ◌&&◌, Option, none, some, ◌==◌, nat_eq, string_eq,
  if◌then◌else◌, ltb, leb,
}
use blog_be.Error.{unauthorized, authentication_required, forbidden}
use blog_be.Exec.{Result, ok, err, Exec, pure, lift, or_raise, ◌>>=◌, ◌>>◌}
use blog_be.Session.{Session, in_transaction, execute, rollback}
use blog_be.Auth.Repository.{Admin, Accounts, get_admin}

-- The fields of `Config` that the authentication reads, and what `keys.private_key()` does with them: it
-- gives a key, which is named by its PEM text, or raises. A cache of loaded keys does not change what it
-- gives (`private_key-uncached` of Auth/Keys/Published).
pub record AuthConfig : Type 0 where
  pub is_prod : Bool
  pub admin_username : String
  pub admin_password_hash : String
  pub jwt_issuer : String
  pub jwt_audience : String
  pub access_expire_minutes : ℕ
  pub refresh_expire_minutes : ℕ
  pub signing_key : Result String

-- the `TokenType` literals
pub data TokenType : Type 0 where
  access refresh : TokenType

abbrev pub type_name : TokenType → String
type_name access = "access"
type_name refresh = "refresh"

-- A value of a claim in a decoded payload. `other` is any value that is no text, int or bool.
pub data Claim : Type 0 where
  text : String → Claim
  int : ℕ → Claim
  bool : Bool → Claim
  other : Claim

-- The claims of a decoded payload that the program reads; `none` is a claim that is not there.
pub record Payload : Type 0 where
  pub sub : Option Claim
  pub typ : Option Claim
  pub tv : Option Claim
  pub jti : Option Claim

-- the payload that `_issue` encodes
pub record Claims : Type 0 where
  pub sub : String
  pub iss : String
  pub aud : String
  pub iat : ℕ
  pub exp : ℕ
  pub tv : ℕ
  pub typ : String
  pub jti : String

-- PyJWT: `jwt.encode` with the key of a PEM text, and `jwt.decode` with its public key at a time, for an
-- issuer and an audience; `none` stands for a `PyJWTError`.
pub record Jwt : Type 0 where
  pub encode : String → Claims → String
  pub decode : String → ℕ → String → String → String → Option Payload

-- a result, and what is made of it
abbrev pub then_result : {A B : Type 0} → Result A → (A → Result B) → Result B
then_result (ok a) f = f a
then_result (err e) f = err e

abbrev pub payload_of : Claims → Payload
payload_of c = record {
  sub = some (text c.sub);
  typ = some (text c.typ);
  tv = some (int c.tv);
  jti = some (text c.jti);
}

-- What PyJWT documents of a payload that it has encoded itself: the token decodes to its claims as long
-- as it is not expired and not from the future, for the issuer and the audience that it names.
pub record IsJwt (jwt : Jwt) (c : Claims) : Type 0 where
  pub decode-encode :
      (key : String) (now : ℕ) (iss aud : String)
      → jwt.decode key now iss aud (jwt.encode key c) ≡ (
          if c.iss == iss && c.aud == aud && ltb now c.exp && leb c.iat now
          then some (payload_of c)
          else none)

module _ (cfg : AuthConfig) (jwt : Jwt) where
  abbrev pub issued : TokenType → ℕ → String → ℕ → ℕ → String → Claims
  issued kind ttl_minutes subject token_version now jti = record {
    sub = subject;
    iss = cfg.jwt_issuer;
    aud = cfg.jwt_audience;
    iat = now;
    exp = now + ttl_minutes * 60;
    tv = token_version;
    typ = type_name kind;
    jti = jti;
  }

  -- `_issue`, at a time and with the jti that `uuid4().hex` gave
  unfoldable pub issue : TokenType → ℕ → String → ℕ → ℕ → String → Result (String × String)
  issue kind ttl_minutes subject token_version now jti =
      then_result cfg.signing_key
        (λ key. ok (jwt.encode key (issued kind ttl_minutes subject token_version now jti), jti))

  unfoldable pub issue_access_token : String → ℕ → ℕ → String → Result String
  issue_access_token subject token_version now jti =
      then_result (issue access cfg.access_expire_minutes subject token_version now jti)
        (λ token_and_jti. ok token_and_jti.0)

  -- the texts of the two tokens that are issued with a key
  abbrev pub access_token_of : String → String → ℕ → ℕ → String → String
  access_token_of key subject token_version now jti =
      jwt.encode key (issued access cfg.access_expire_minutes subject token_version now jti)

  abbrev pub refresh_token_of : String → String → ℕ → ℕ → String → String
  refresh_token_of key subject token_version now jti =
      jwt.encode key (issued refresh cfg.refresh_expire_minutes subject token_version now jti)

  unfoldable pub issue_refresh_token : String → ℕ → ℕ → String → Result (String × String)
  issue_refresh_token subject token_version now jti =
      issue refresh cfg.refresh_expire_minutes subject token_version now jti

  -- the `except` of `decode_token`, which catches what PyJWT raises and no more
  abbrev pub or_invalid : Option Payload → Result Payload
  or_invalid none = err (unauthorized "Invalid or expired token")
  or_invalid (some payload) = ok payload

  -- `decode_token`: what `keys.public_key()` raises is not caught
  unfoldable pub decode_token : ℕ → String → Result Payload
  decode_token now token =
      then_result cfg.signing_key
        (λ key. or_invalid (jwt.decode key now cfg.jwt_issuer cfg.jwt_audience token))

  -- `isinstance(subject, str)` and the comparison with the admin's name
  abbrev pub check_subject : Option Claim → Result String
  check_subject (some (text subject)) =
      if subject == cfg.admin_username then ok subject else err forbidden
  check_subject _ = err forbidden

  abbrev pub check_type : Option Claim → TokenType → Result (Unit {0})
  check_type (some (text typ)) expected =
      if typ == type_name expected then ok tt else err (unauthorized "Wrong token type")
  check_type _ expected = err (unauthorized "Wrong token type")

  -- `isinstance(token_version, int)`: a bool is an int, and True equals 1
  abbrev pub check_version : Option Claim → Result ℕ
  check_version (some (int v)) = ok v
  check_version (some (bool true)) = ok 1
  check_version (some (bool false)) = ok 0
  check_version _ = err (unauthorized "Token missing version claim")

  abbrev pub check_jti : Option Claim → Result String
  check_jti (some (text jti)) = ok jti
  check_jti _ = err (unauthorized "Token missing id claim")

  -- `admin is None or admin.token_version != token_version`
  abbrev pub check_current : ℕ → Option Admin → Result (Unit {0})
  check_current version none = err (unauthorized "Token has been revoked")
  check_current version (some admin) =
      if admin.token_version == version then ok tt else err (unauthorized "Token has been revoked")

  -- the `finally` of `_verify_subject`
  abbrev pub finally_rollback : {A : Type 0} → Exec (Session Accounts) A → Exec (Session Accounts) A
  finally_rollback m s = let (r, s') = m s in (r, if in_transaction s' then rollback s' else s')

  -- `_verify_subject`
  unfoldable pub verify_subject : Payload → TokenType → Exec (Session Accounts) String
  verify_subject payload expected = do
    subject ← lift (check_subject payload.sub)
    lift (check_type payload.typ expected)
    version ← lift (check_version payload.tv)
    finally_rollback (execute (λ d. (check_current version (get_admin subject d), d)))
    pure subject

  -- `_require_admin_from_header`
  unfoldable pub require_admin_from_header : Option String → Result String
  require_admin_from_header none = err authentication_required
  require_admin_from_header (some user_id) =
      if user_id == ""
      then err authentication_required
      else if user_id == cfg.admin_username
      then ok user_id
      else err forbidden

  -- the bearer token outside production
  unfoldable pub verify_bearer : ℕ → Option String → Exec (Session Accounts) String
  verify_bearer now creds = do
    token ← or_raise creds authentication_required
    payload ← lift (decode_token now token)
    verify_subject payload access

  -- `require_admin`: the header `X-User-ID`, and the bearer token
  unfoldable pub require_admin : ℕ → Option String → Option String → Exec (Session Accounts) String
  require_admin now user_id creds =
      if cfg.is_prod then lift (require_admin_from_header user_id) else verify_bearer now creds

  -- `verify_refresh_token`
  unfoldable pub verify_refresh_token : {S : Type 0} → ℕ → String → Exec S (String × ℕ × String)
  verify_refresh_token now token = do
    payload ← lift (decode_token now token)
    subject ← lift (check_subject payload.sub)
    lift (check_type payload.typ refresh)
    tv ← lift (check_version payload.tv)
    jti ← lift (check_jti payload.jti)
    pure (subject, tv, jti)

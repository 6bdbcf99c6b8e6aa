-- ===== src/Tests/AuthTests.antt =====
-- Tokens.
use blog_be.Prelude.{
  ℕ, ◌≡◌, refl, false, none, some, [], ◌∷◌, arith, string_eq, ◌==◌, if◌then◌else◌,
}
use blog_be.Error.{unauthorized}
use blog_be.Exec.{ok, err, ◌>>=◌}
use blog_be.Session.{transactional, execute, sqlalchemy_middleware, in_transaction}
use blog_be.Auth.Repository.{
  Admin, Accounts, RefreshToken, RefreshStatus, active, rotated, get_admin, get_refresh_token,
}
use blog_be.Auth.Token.{
  AuthConfig, Jwt, text, int, require_admin, verify_bearer, verify_subject, decode_token,
}
use blog_be.Auth.Routes.{Draw, refresh_request, logout_request, logout_body}
use blog_be.Auth.Rotation.{IsRefreshOf, killed, exchanged, new_refresh_token, signed_pair, opened}
use blog_be.Auth.Dependency.{guarded, endpoint_commits}
use blog_be.Auth.Replay.{
  IsExchangeable, refresh_twice, logout_revokes, refresh_rotates, refresh_reuse,
}

abbrev pub cfg : AuthConfig
cfg = record {
  is_prod = false;
  admin_username = "admin";
  admin_password_hash = "$2b$hash";
  jwt_issuer = "blog-be";
  jwt_audience = "blog-be";
  access_expire_minutes = 15;
  refresh_expire_minutes = 10080;
  signing_key = ok "key";
}

-- a token is its jti; "access" decodes to an access token, and any other to a refresh token, both of
-- version 1
abbrev jwt : Jwt
jwt = record {
  encode = λ key c. c.jti;
  decode = λ key now iss aud token. some (record {
    sub = some (text "admin");
    typ = some (text (if token == "access" then "access" else "refresh"));
    tv = some (int 1);
    jti = some (text token);
  });
}

abbrev pub draw : Draw
draw = record { app_now = 100; db_now = 101; refresh_jti = "r2"; access_jti = "a2" }

abbrev pub again : Draw
again = record { app_now = 200; db_now = 201; refresh_jti = "r3"; access_jti = "a3" }

abbrev pub admin_row : Admin
admin_row = record {
  username = "admin";
  password_hash = "$2b$hash";
  token_version = 1;
  created_at = 1;
}

abbrev pub token_row : RefreshStatus → RefreshToken
token_row status = record {
  jti = "r1";
  subject = "admin";
  status = status;
  created_at = 1;
  expires_at = 604801;
}

abbrev pub accounts : RefreshStatus → Accounts
accounts status = record { admins = admin_row ∷ []; refresh_tokens = token_row status ∷ [] }

claims_at : (now : ℕ) → IsRefreshOf cfg jwt now "r1" 1 "r1"
claims_at now = record {
  payload = _;
  key = "key";
  loads = refl;
  decoded = refl;
  sub = refl;
  typ = refl;
  version = refl;
  id = refl;
}

exchangeable : IsExchangeable cfg jwt draw "r1" 1 "r1" (accounts active)
unfolding get_admin get_refresh_token
exchangeable = record {
  claims = claims_at 100;
  admin = admin_row;
  known = refl;
  current = refl;
  row = token_row active;
  found = refl;
  claimable = refl;
  fresh = refl;
}

refresh_twice_example :
    let first = refresh_request cfg jwt draw "r1" (accounts active) in
    refresh_request cfg jwt again "r1" first.1
    ≡ (err (unauthorized "Token reuse detected"), killed "admin" first.1)
refresh_twice_example =
    refresh_twice cfg jwt draw again "r1" 1 "r1" (accounts active) exchangeable (claims_at 200)

refresh_rotates_example : refresh_request cfg jwt draw "r1" (accounts active) ≡ (
  ok (
      signed_pair cfg jwt draw "admin" 1 "r1" "key"
        (new_refresh_token cfg jwt draw "admin" 1 "r1" "key")),
  exchanged cfg jwt draw "admin" 1 "r1" (accounts active),
)
refresh_rotates_example = refresh_rotates cfg jwt draw "r1" 1 "r1" (accounts active) exchangeable

refresh_reuse_example :
    refresh_request cfg jwt draw "r1" (accounts rotated)
    ≡ (err (unauthorized "Token reuse detected"), killed "admin" (accounts rotated))
unfolding get_admin get_refresh_token
refresh_reuse_example =
    refresh_reuse cfg jwt draw "r1" 1 "r1" (accounts rotated) {admin = admin_row}
      {row = token_row rotated} (claims_at 100) refl refl refl refl

logout_revokes_example :
    let after = (logout_request cfg jwt draw none (some "access") (accounts active)).1 in
    ((logout_request cfg jwt draw none (some "access") (accounts active)).0 ≡ ok tt)
    × (after ≡ killed "admin" (accounts active))
    × (refresh_request cfg jwt again "r1" after
        ≡ (err (unauthorized "Token has been revoked"), after))
unfolding require_admin verify_bearer verify_subject decode_token get_admin execute in_transaction
logout_revokes_example =
    logout_revokes cfg jwt draw again none (some "access") "r1" 1 "r1" (accounts active)
      {admin = admin_row} refl refl (omega arith) (claims_at 200)

endpoint_commits_example :
    sqlalchemy_middleware
      (require_admin cfg jwt 100 none (some "access") >>= λ subject.
        transactional (execute (logout_body cfg jwt subject)))
      (accounts active)
    ≡ guarded cfg jwt
        (require_admin cfg jwt 100 none (some "access") (opened (accounts active))).0
        (logout_body cfg jwt)
        (accounts active)
endpoint_commits_example =
    endpoint_commits cfg jwt 100 none (some "access") (logout_body cfg jwt) (accounts active)

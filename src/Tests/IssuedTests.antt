-- ===== src/Tests/IssuedTests.antt =====
-- An access token that is issued at 100 and lives for 15 minutes.
use blog_be.Prelude.{◌≡◌, refl, ◌&&◌, none, some, ◌==◌, nat_eq, string_eq, if◌then◌else◌, ltb, leb}
use blog_be.Error.{unauthorized}
use blog_be.Exec.{ok, err}
use blog_be.Auth.Repository.{active, get_admin}
use blog_be.Auth.Token.{Jwt, IsJwt, payload_of, Claims, require_admin, issue_access_token, issue}
use blog_be.Auth.Rotation.{opened}
use blog_be.Auth.Issued.{is_live, access_token_checked}
use blog_be.Tests.AuthTests.{cfg, accounts, admin_row}

abbrev claims : Claims
claims = record {
  sub = "admin";
  iss = "blog-be";
  aud = "blog-be";
  iat = 100;
  exp = 1000;
  tv = 1;
  typ = "access";
  jti = "a1";
}

-- knows one token
abbrev pub one_jwt : Jwt
one_jwt = record {
  encode = λ key c. "token";
  decode = λ key now iss aud token.
      if claims.iss == iss && claims.aud == aud && ltb now claims.exp && leb claims.iat now
      then some (payload_of claims)
      else none;
}

pub one_jwt-IsJwt : IsJwt one_jwt claims
one_jwt-IsJwt = record { decode-encode = λ key now iss aud. refl }

pub admin_known : get_admin "admin" (accounts active) ≡ some admin_row
unfolding get_admin
admin_known = refl

pub token_is_issued : issue_access_token cfg one_jwt "admin" 1 100 "a1" ≡ ok "token"
unfolding issue_access_token issue
token_is_issued = refl

access_token_checked_example :
    require_admin cfg one_jwt 500 none (some "token") (opened (accounts active)) ≡ (
      if is_live 15 100 500
          then (if admin_row.token_version == 1
              then ok "admin"
              else err (unauthorized "Token has been revoked"))
          else err (unauthorized "Invalid or expired token"),
      opened (accounts active),
    )
access_token_checked_example =
    access_token_checked cfg one_jwt 1 100 500 "a1" none (accounts active) {admin = admin_row}
      {token = "token"} token_is_issued one_jwt-IsJwt refl admin_known

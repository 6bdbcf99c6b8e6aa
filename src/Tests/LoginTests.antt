-- ===== src/Tests/LoginTests.antt =====
-- A login, and a refresh with the token that it returns.
use blog_be.Prelude.{
  ℕ, String, ◌≡◌, refl, true, false, ◌&&◌, none, some, [], ◌∷◌, ◌==◌, nat_eq, string_eq,
  if◌then◌else◌, ltb, leb, arith,
}
use blog_be.Exec.{Result, ok}
use blog_be.Auth.Repository.{Accounts, active, get_admin}
use blog_be.Auth.Password.{Bcrypt, encode, verify_password}
use blog_be.Auth.Token.{Jwt, IsJwt, Claims, payload_of}
use blog_be.Auth.Routes.{TokenPair, login_request, refresh_request}
use blog_be.Auth.Rotation.{exchanged, new_refresh_token, signed_pair}
use blog_be.Auth.Login.{
  accepted, version_at_login, issued_refresh_token, issued_pair, login_then_refresh,
}
use blog_be.Tests.AuthTests.{cfg, accounts, draw, again}

abbrev claims : Claims
claims = record {
  sub = "admin";
  iss = "blog-be";
  aud = "blog-be";
  iat = 100;
  exp = 604900;
  tv = 1;
  typ = "refresh";
  jti = "r2";
}

abbrev pub one_jwt : Jwt
one_jwt = record {
  encode = λ key c. "token";
  decode = λ key now iss aud token.
      if claims.iss == iss && claims.aud == aud && ltb now claims.exp && leb claims.iat now
      then some (payload_of claims)
      else none;
}

one_jwt-IsJwt : IsJwt one_jwt claims
one_jwt-IsJwt = record { decode-encode = λ key now iss aud. refl }

-- the one password is "secret"
abbrev pub plain : Bcrypt
plain = record {
  encode_utf8 = λ s. if s == "secret" then 1 ∷ [] else [];
  hashpw = λ bytes salt. salt;
  checkpw = λ bytes hashed. elim bytes [ [] ↦ false | b ∷ bs ↦ true ];
}

secret_accepted :
    accepted cfg one_jwt plain "dummy" draw (accounts active) "key" "admin" "secret" ≡ true
unfolding verify_password encode
secret_accepted = refl

version_is_one : version_at_login cfg one_jwt plain "dummy" draw (accounts active) "key" ≡ 1
unfolding get_admin
version_is_one = refl

abbrev version : ℕ
version = version_at_login cfg one_jwt plain "dummy" draw (accounts active) "key"

abbrev issued_token : String
issued_token = issued_refresh_token cfg one_jwt plain "dummy" draw (accounts active) "key"

abbrev answer : Result TokenPair × Accounts
answer = login_request cfg one_jwt plain "dummy" draw "admin" "secret" (accounts active)

login_then_refresh_example :
    (answer.0 ≡ ok (issued_pair cfg one_jwt plain "dummy" draw (accounts active) "key"))
    × (refresh_request cfg one_jwt again issued_token answer.1 ≡ (
      ok (
          signed_pair cfg one_jwt again "admin" version "r2" "key"
            (new_refresh_token cfg one_jwt again "admin" version "r2" "key")),
      exchanged cfg one_jwt again "admin" version "r2" answer.1,
    ))
unfolding get_admin
login_then_refresh_example =
    login_then_refresh cfg one_jwt plain "dummy" draw (accounts active) "key" again "admin" "secret"
      secret_accepted refl one_jwt-IsJwt refl refl (omega arith) refl

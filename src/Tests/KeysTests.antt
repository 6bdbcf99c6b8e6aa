-- ===== src/Tests/KeysTests.antt =====
-- The published key set of a production configuration.
use blog_be.Prelude.{String, ◌≡◌, ◌≢◌, refl, some, List, [], ◌∷◌, string_eq}
use blog_be.Exec.{ok}
use blog_be.Server.Http.{codes}
use blog_be.Config.{rsa_key}
use blog_be.Auth.Keys.{RsaLibrary, member, jwks, jwt_algorithm, private_key, public_key, public_jwk}
use blog_be.Auth.Keys.Published.{jwks_published}
use blog_be.Tests.ConfigTests.{
  any_key, prod_config, checked_config, prod_config-is_prod, prod_config_checked,
}

abbrev pub one_rsa : RsaLibrary (Unit {0}) (Unit {0})
one_rsa = record { public_of = λ k. k; to_jwk = λ k. ("kty", "RSA") ∷ ("n", "7") ∷ [] }

published_members :
    (jwks any_key one_rsa prod_config []).0
    ≡ ok (
        (("kty", "RSA") ∷ ("n", "7") ∷ ("kid", "v1") ∷ ("use", "sig") ∷ ("alg", "RS256") ∷ []) ∷ [])
unfolding jwks public_jwk public_key private_key
published_members = refl

jwks_published_example :
    (key : Unit {0}) × (any_key.load_pem (codes prod_config.jwt_private_key_pem)
      ≡ some (rsa_key key))
    × (jwk : List (String × String)) × ((jwks any_key one_rsa prod_config []).0 ≡ ok (jwk ∷ []))
    × (member "kid" jwk ≡ some prod_config.jwt_kid)
    × (member "use" jwk ≡ some "sig")
    × (member "alg" jwk ≡ some jwt_algorithm)
    × ((name : String)
        → name ≢ "kid"
        → name ≢ "use"
        → name ≢ "alg"
        → member name jwk ≡ member name (one_rsa.to_jwk (one_rsa.public_of key)))
jwks_published_example =
    jwks_published any_key one_rsa prod_config [] {c' = checked_config} prod_config-is_prod
      prod_config_checked refl (λ pem k found. absurd (cc))

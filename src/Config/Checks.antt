-- ===== src/Config/Checks.antt =====
-- What a production configuration that starts has, and that it closes the gateway.
use mathlib.Core.Path.{subst}
use blog_be.Prelude.{
  Option, ◌≤◌, ◌≡◌, ◌≢◌, refl, ◌∙◌, true, false, none, some, [], ◌∷◌, any, Bool-cases, inl, inr,
  arith, length, ◌==◌, string_eq,
}
use blog_be.Error.{value_error, type_error}
use blog_be.Exec.{Result, ok, err}
use blog_be.Server.Http.{Request, codes}
use blog_be.Server.Gateway.{
  gateway_dispatch, gateway_passes, probe_paths, init_middleware, gateway_shared_secret, sqlalchemy,
}
use blog_be.Config.{
  Config, KeyLibrary, rsa_key, other_key, PrivateKey, is_prod, is_blank, strip, and_then,
  prod_checks, check_prod_jwt_private_key, check_prod_gateway_secret,
}

and_then-ok :
    {A : Type 0} (r : Result (Unit {0})) (next : Result A) {a : A}
    → and_then r next ≡ ok a
    → (r ≡ ok tt) × (next ≡ ok a)
and_then-ok (ok _) next e = (refl, e)
and_then-ok (err x) next e = absurd (cc)

module _ {K : Type 0} (lib : KeyLibrary K) where
  jwt_key-ok :
      (c : Config)
      → check_prod_jwt_private_key lib c ≡ ok tt
      → (k : K) × (lib.load_pem (strip (codes c.jwt_private_key_pem)) ≡ some (rsa_key k))
        × (is_blank (strip (codes c.jwt_private_key_pem)) ≡ false)
  unfolding check_prod_jwt_private_key
  jwt_key-ok c e = elim (Bool-cases (is_blank (strip (codes c.jwt_private_key_pem)))) [
    | inl blank ↦ absurd (let no : err value_error ≡ ok tt = rw blank at e in cc)
    | inr set ↦
        let (k, found) =
          loaded (lib.load_pem (strip (codes c.jwt_private_key_pem))) (rw set at e) in
        (k, found, set)
  ]
    where
      loaded :
          (o : Option (PrivateKey K))
          → elim o as (λ _. Result (Unit {0})) [
            | none ↦ err value_error
            | some (rsa_key k) ↦ ok tt
            | some other_key ↦ err type_error
          ]
            ≡ ok tt
          → (k : K) × (o ≡ some (rsa_key k))
      loaded none h = absurd (cc)
      loaded (some (rsa_key k)) h = (k, refl)
      loaded (some other_key) h = absurd (cc)

  secret-ok :
      (c : Config)
      → check_prod_gateway_secret c ≡ ok tt
      → 32 ≤ length (strip (codes c.gateway_shared_secret))
  unfolding check_prod_gateway_secret
  secret-ok c e = ground (arith, e)

  -- What a production configuration that starts has.
  pub record IsProdReady (c c' : Config) : Type 0 where
    pub signer : K
    pub set : is_blank (strip (codes c.jwt_private_key_pem)) ≡ false
    pub key : lib.load_pem (strip (codes c.jwt_private_key_pem)) ≡ some (rsa_key signer)
    pub kid : is_blank (strip (codes c.jwt_kid)) ≡ false
    pub secret : 32 ≤ length (strip (codes c.gateway_shared_secret))
    pub quiet : c' ≡ record c { debug = false }

  -- A production configuration that passes the checks has an RSA key that loads, a key id that is not
  -- blank and a gateway secret of at least 32 characters without the white space around it, and it
  -- differs from the given one only in that DEBUG is off.
  pub prod_checks-IsProdReady :
      (c : Config) {c' : Config} → is_prod c ≡ true → prod_checks lib c ≡ ok c' → IsProdReady c c'
  unfolding prod_checks
  prod_checks-IsProdReady c {c'} prod e =
      let (key, rest) = and_then-ok (check_prod_jwt_private_key lib c) _ (rw prod at e) in
      elim (Bool-cases (is_blank (strip (codes c.jwt_kid)))) [
        | inl blank ↦ absurd (let no : err value_error ≡ ok c' = rw blank at rest in cc)
        | inr kid ↦
            let last = and_then-ok (check_prod_gateway_secret c) _ (rw kid at rest) in
            record {
              signer = (jwt_key-ok c key).0;
              set = (jwt_key-ok c key).2;
              key = (jwt_key-ok c key).1;
              kid = kid;
              secret = secret-ok c last.0;
              quiet = cc;
            }
      ]

  secret-set :
      (c : Config)
      → 32 ≤ length (strip (codes c.gateway_shared_secret))
      → c.gateway_shared_secret ≢ ""
  unfolding strip
  secret-set c long e =
      let short : 32 ≤ 0 = subst (λ s. 32 ≤ length (strip (codes s))) e long in omega (arith, short)

  -- A production configuration that passes the checks puts the gateway check in front of the session,
  -- and a request that is not for a probe path passes that check exactly if it carries the secret.
  pub prod_gateway_closed :
      (c : Config) {c' : Config} (request : Request)
      → is_prod c ≡ true
      → prod_checks lib c ≡ ok c'
      → any (λ path. request.path == path) probe_paths ≡ false
      → (init_middleware c' ≡ gateway_shared_secret c.gateway_shared_secret ∷ sqlalchemy ∷ [])
        × (gateway_dispatch c'.gateway_shared_secret request ≡ (elim request.gateway_auth [
          | none ↦ false
          | some value ↦ value == c.gateway_shared_secret
        ]))
  unfolding init_middleware is_prod
  prod_gateway_closed c {c'} request prod e other =
      let ready = prod_checks-IsProdReady c {c' = c'} prod e in
      rw ready.quiet (
        rw prod refl,
        gateway_passes c.gateway_shared_secret request (secret-set c ready.secret) ∙ rw other refl,
      )

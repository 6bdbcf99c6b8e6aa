-- ===== src/Auth/Keys.antt =====
-- app/core/security/keys.py and api/jwks.py: the cached signing key and the published key set.
pub mod Published
use blog_be.Prelude.{
  ℕ, String, Bool, true, false, Option, none, some, List, [], ◌∷◌, ◌==◌, string_eq, if◌then◌else◌,
}
use blog_be.Error.{Error, runtime_error, type_error, value_error}
use blog_be.Exec.{Result, ok, err, Exec, pure, raise, gets, modify, ◌>>=◌, ◌>>◌}
use blog_be.Server.Http.{codes}
use blog_be.Config.{Config, KeyLibrary, PrivateKey, rsa_key, other_key}

-- `key.public_key()`, and `RSAAlgorithm.to_jwk` as the members of a JSON object
pub record RsaLibrary (K P : Type 0) : Type 0 where
  pub public_of : K → P
  pub to_jwk : P → List (String × String)

-- `_PRIVATE_CACHE`
abbrev pub KeyCache : Type 0 → Type 0
KeyCache K = List (String × K)

module _ {A : Type 0} where
  abbrev pub member : String → List (String × A) → Option A
  member key [] = none
  member key ((k, v) ∷ members) = if k == key then some v else member key members

  -- `members[key] = value`
  abbrev pub set_member : String → A → List (String × A) → List (String × A)
  set_member key value [] = (key, value) ∷ []
  set_member key value ((k, v) ∷ members) =
      if k == key then (k, value) ∷ members else (k, v) ∷ set_member key value members

abbrev pub jwt_algorithm : String
jwt_algorithm = "RS256"

module _ {K : Type 0} (lib : KeyLibrary K) where
  -- the key of a loaded PEM; what the loader raises is a ValueError
  abbrev pub loaded_key : Option (PrivateKey K) → Result K
  loaded_key none = err value_error
  loaded_key (some (rsa_key k)) = ok k
  loaded_key (some other_key) = err type_error

  -- `_PRIVATE_CACHE[pem] = key` after a load
  abbrev pub remember : String → Result K → Exec (KeyCache K) K
  remember pem (ok k) = do modify (set_member pem k); pure k
  remember pem (err e) = raise e

  abbrev pub cached_or_load : String → Option K → Exec (KeyCache K) K
  cached_or_load pem (some k) = pure k
  cached_or_load pem none = remember pem (loaded_key (lib.load_pem (codes pem)))

  -- `private_key`
  unfoldable pub private_key : Config → Exec (KeyCache K) K
  private_key c = if c.jwt_private_key_pem == "" then raise runtime_error else do
    cached ← gets (member c.jwt_private_key_pem)
    cached_or_load c.jwt_private_key_pem cached

  module _ {P : Type 0} (rsa : RsaLibrary K P) where
    -- `public_key`
    unfoldable pub public_key : Config → Exec (KeyCache K) P
    public_key c = do key ← private_key c; pure (rsa.public_of key)

    -- the members that `public_jwk` sets
    abbrev pub labelled : Config → List (String × String) → List (String × String)
    labelled c jwk =
        set_member "alg" jwt_algorithm (set_member "use" "sig" (set_member "kid" c.jwt_kid jwk))

    -- `public_jwk`
    unfoldable pub public_jwk : Config → Exec (KeyCache K) (List (String × String))
    public_jwk c = do key ← public_key c; pure (labelled c (rsa.to_jwk key))

    -- `jwks`: the list under "keys"
    unfoldable pub jwks : Config → Exec (KeyCache K) (List (List (String × String)))
    jwks c = do jwk ← public_jwk c; pure (jwk ∷ [])

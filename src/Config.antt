-- ===== src/Config.antt =====
-- app/core/config/config.py: the checks of a production configuration, the list of CORS origins and
-- the environment files. A text is the list of its code points where its characters matter.
pub mod Strip
pub mod Checks
pub mod Loader
use Prim.Native.String.{◌++◌ as str_append}
use blog_be.Prelude.{
  ℕ, ◌+◌, String, Bool, true, false, not, ◌&&◌, ◌||◌, Option, none, some, List, [], ◌∷◌, ◌++◌, map,
  ◌==◌, nat_eq, string_eq, if◌then◌else◌, ltb, leb, length, filter, any,
}
use blog_be.Error.{Error, value_error, type_error}
use blog_be.Exec.{Result, ok, err}
use blog_be.Server.Http.{codes, same_codes}

-- what `serialization.load_pem_private_key` gives: an RSA key or one of another kind
pub data PrivateKey (K : Type 0) : Type 0 where
  rsa_key : K → PrivateKey K
  other_key : PrivateKey K

-- `load_pem_private_key` on the UTF-8 of a text; `none` stands for any exception
pub record KeyLibrary (K : Type 0) : Type 0 where
  pub load_pem : List ℕ → Option (PrivateKey K)

-- the fields of `Config` that this module reads or writes
pub record Config : Type 0 where
  pub env : String
  pub debug : Bool
  pub app_host : String
  pub app_port : ℕ
  pub workers : ℕ
  pub graceful_shutdown_seconds : ℕ
  pub cors_origins : String
  pub jwt_private_key_pem : String
  pub jwt_kid : String
  pub gateway_shared_secret : String

abbrev pub min_gateway_shared_secret_len : ℕ
min_gateway_shared_secret_len = 32

-- the code points that `str.strip` removes
abbrev pub is_space : ℕ → Bool
is_space c =
    (leb 9 c && leb c 13)
    || (leb 28 c && leb c 32)
    || (leb 8192 c && leb c 8202)
    || any (λ d. c == d) (133 ∷ 160 ∷ 5760 ∷ 8232 ∷ 8233 ∷ 8239 ∷ 8287 ∷ 12288 ∷ [])

abbrev pub is_blank : List ℕ → Bool
is_blank [] = true
is_blank (c ∷ cs) = false

abbrev pub strip_left : List ℕ → List ℕ
strip_left [] = []
strip_left (c ∷ cs) = if is_space c then strip_left cs else c ∷ cs

abbrev pub strip_right : List ℕ → List ℕ
strip_right [] = []
strip_right (c ∷ cs) =
    let rest = strip_right cs in if is_space c && is_blank rest then [] else c ∷ rest

unfoldable pub strip : List ℕ → List ℕ
strip text = strip_right (strip_left text)

-- `str.lower` on the ASCII letters. No other letter has a lower case that is an ASCII letter of the
-- names in `PROD_ENV_NAMES`.
abbrev pub lower : List ℕ → List ℕ
lower text = map (λ c. if leb 65 c && leb c 90 then c + 32 else c) text

abbrev pub is_prod_name : List ℕ → Bool
is_prod_name name = same_codes name (codes "prod") || same_codes name (codes "production")

unfoldable pub is_prod : Config → Bool
is_prod c = is_prod_name (lower (codes c.env))

-- `split(",")`
abbrev pub cons_head : ℕ → List (List ℕ) → List (List ℕ)
cons_head c [] = (c ∷ []) ∷ []
cons_head c (word ∷ words) = (c ∷ word) ∷ words

abbrev pub split_comma : List ℕ → List (List ℕ)
split_comma [] = [] ∷ []
split_comma (c ∷ cs) = let rest = split_comma cs in if c == 44 then [] ∷ rest else cons_head c rest

unfoldable pub cors_origins_list : Config → List (List ℕ)
cors_origins_list c =
    filter (λ o. not (is_blank o)) (map strip (split_comma (codes c.cors_origins)))

-- `_check_prod_gateway_secret`
unfoldable pub check_prod_gateway_secret : Config → Result (Unit {0})
check_prod_gateway_secret c =
    let secret = strip (codes c.gateway_shared_secret) in
    if is_blank secret
    then err value_error
    else if ltb (length secret) min_gateway_shared_secret_len
    then err value_error
    else ok tt

abbrev pub and_then : {A : Type 0} → Result (Unit {0}) → Result A → Result A
and_then (ok _) next = next
and_then (err e) next = err e

module _ {K : Type 0} (lib : KeyLibrary K) where
  -- `_check_prod_jwt_private_key`
  unfoldable pub check_prod_jwt_private_key : Config → Result (Unit {0})
  check_prod_jwt_private_key c =
      let pem = strip (codes c.jwt_private_key_pem) in
      if is_blank pem then err value_error else elim (lib.load_pem pem) [
        | none ↦ err value_error
        | some (rsa_key k) ↦ ok tt
        | some other_key ↦ err type_error
      ]

  -- `_prod_checks`
  unfoldable pub prod_checks : Config → Result Config
  prod_checks c =
      if is_prod c
      then and_then (check_prod_jwt_private_key c) (
          if is_blank (strip (codes c.jwt_kid))
          then err value_error
          else and_then (check_prod_gateway_secret c) (ok (record c { debug = false })))
      else ok c

-- The paths that `_resolve_env_files` reads if they are files, for the lower-cased `ENV`.
abbrev pub env_file : String → String
env_file name = str_append ".env." name

abbrev pub local_file : String → String
local_file name = str_append (env_file name) ".local"

abbrev pub alias_files : String → List String
alias_files env =
    if env == "prod"
    then env_file "production" ∷ local_file "production" ∷ []
    else if env == "production"
    then env_file "prod" ∷ local_file "prod" ∷ []
    else []

unfoldable pub resolve_env_files : (String → Bool) → String → List String
resolve_env_files is_file env =
    filter is_file ((".env" ∷ env_file env ∷ ".env.local" ∷ local_file env ∷ []) ++ alias_files env)

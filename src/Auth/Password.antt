-- ===== src/Auth/Password.antt =====
-- app/core/security/password.py over bcrypt and the UTF-8 encoding of Python.
use blog_be.Prelude.{ℕ, String, Bool, false, List, ◌==◌, string_eq, if◌then◌else◌, take}

-- What password.py calls: `str.encode("utf-8")`, `bcrypt.hashpw` with a salt of `gensalt`, and
-- `bcrypt.checkpw`.
pub record Bcrypt : Type 0 where
  pub encode_utf8 : String → List ℕ
  pub hashpw : List ℕ → String → String
  pub checkpw : List ℕ → String → Bool

abbrev pub bcrypt_max_bytes : ℕ
bcrypt_max_bytes = 72

module _ (lib : Bcrypt) where
  -- `_encode`
  unfoldable pub encode : String → List ℕ
  encode password = take bcrypt_max_bytes (lib.encode_utf8 password)

  unfoldable pub hash_password : String → String → String
  hash_password salt password = lib.hashpw (encode password) salt

  unfoldable pub verify_password : String → String → Bool
  verify_password password hashed =
      if hashed == "" then false else lib.checkpw (encode password) hashed

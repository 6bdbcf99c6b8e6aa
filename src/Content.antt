-- ===== src/Content.antt =====
-- app/content (entity, repository, service) and api/v1/content.py: documents stored under a key.
pub mod Laws
pub mod Puts
pub mod Keeps
use Prim.Native.String.{◌++◌ as str_append}
use blog_be.Prelude.{
  ℕ, zero, suc, String, Bool, true, false, not, ◌&&◌, ◌||◌, Option, none, some, List, [], ◌∷◌, ◌==◌,
  nat_eq, string_eq, if◌then◌else◌, ltb, leb, length,
}
use blog_be.Prelude.Table.{lookup, has, update}
use blog_be.Error.{
  Error, assertion_error, value_error, data_error, content_not_found, validation_error,
}
use blog_be.Exec.{Result, ok, err, Exec, pure, raise, gets, or_raise, raise_if, bind, ◌>>=◌, ◌>>◌}
use blog_be.Session.{Session, execute, transactional, sqlalchemy_middleware}
use blog_be.Server.Http.{codes}

-- What the program calls on a document of type `C`: `json.dumps` without NaN, which raises a
-- ValueError on one; `str.encode`, which raises on a lone surrogate; and what a JSONB column stores
-- for a document, which the database may refuse.
pub record Json (C : Type 0) : Type 0 where
  pub dumps : C → Option String
  pub encode : String → Option (List ℕ)
  pub jsonb : C → Option C

-- `SiteContent`, and its response `ContentRead`
pub record SiteContent (C : Type 0) : Type 0 where
  pub key : String
  pub content : C
  pub updated_at : ℕ

pub record ContentRead (C : Type 0) : Type 0 where
  pub key : String
  pub content : C
  pub updated_at : ℕ

abbrev pub max_content_bytes : ℕ
max_content_bytes = 65536

abbrev pub max_key_length : ℕ
max_key_length = 64

-- the classes `[a-z0-9]` and `[a-z0-9_-]`
abbrev pub is_alnum : ℕ → Bool
is_alnum c = (leb 97 c && leb c 122) || (leb 48 c && leb c 57)

abbrev pub is_key_char : ℕ → Bool
is_key_char c = is_alnum c || (c == 95 || c == 45)

-- `[a-z0-9_-]{0,n}` up to the end
abbrev pub is_key_rest : ℕ → List ℕ → Bool
is_key_rest n [] = true
is_key_rest zero (c ∷ cs) = false
is_key_rest (suc n) (c ∷ cs) = is_key_char c && is_key_rest n cs

-- `_KEY_RE.fullmatch`
abbrev pub is_key : List ℕ → Bool
is_key [] = false
is_key (c ∷ cs) = is_alnum c && is_key_rest 63 cs

abbrev pub invalid_key : String → Error
invalid_key key = validation_error (
    str_append "Invalid content key: '" (str_append key "'. Must match ^[a-z0-9][a-z0-9_-]{0,63}$"))

unfoldable pub validate_key : {S : Type 0} → String → Exec S (Unit {0})
validate_key key = raise_if (not (is_key (codes key))) (invalid_key key)

module _ {C : Type 0} where
  abbrev pub content_key : SiteContent C → String
  content_key row = row.key

  abbrev pub to_read : SiteContent C → ContentRead C
  to_read row = record { key = row.key; content = row.content; updated_at = row.updated_at }

  -- `ContentRepository.get`
  unfoldable pub find_content : String → List (SiteContent C) → Option (SiteContent C)
  find_content key rows = lookup content_key key rows

  -- INSERT … ON CONFLICT (key) DO UPDATE, for a document as the column stores it
  unfoldable pub write_row : ℕ → String → C → List (SiteContent C) → List (SiteContent C)
  write_row now key stored rows =
      if has content_key key rows
      then update content_key key (λ r. record r { content = stored; updated_at = now }) rows
      else record { key = key; content = stored; updated_at = now } ∷ rows

  -- `ContentService.get`
  unfoldable pub read_content : String → Exec (List (SiteContent C)) (ContentRead C)
  read_content key = do
    row ← (λ rows. or_raise (find_content key rows) (content_not_found key) rows)
    pure (to_read row)

  -- `get_content`
  unfoldable pub get_content :
      String → List (SiteContent C) → Result (ContentRead C) × List (SiteContent C)
  get_content key = sqlalchemy_middleware (validate_key key >> execute (read_content key))

module _ {C : Type 0} (json : Json C) where
  -- the statement of `ContentRepository.upsert`; the key is a VARCHAR(64)
  unfoldable pub execute_upsert : ℕ → String → C → Exec (List (SiteContent C)) (Unit {0})
  execute_upsert now key content rows =
      if ltb max_key_length (length (codes key))
      then (err data_error, rows)
      else elim (json.jsonb content) [
        | none ↦ (err data_error, rows)
        | some stored ↦ (ok tt, write_row now key stored rows)
      ]

  -- `ContentRepository.upsert`, with its `assert`
  unfoldable pub upsert_row : ℕ → String → C → Exec (List (SiteContent C)) (SiteContent C)
  upsert_row now key content = do
    execute_upsert now key content
    (λ rows. or_raise (find_content key rows) assertion_error rows)

  -- the two checks of `ContentService.upsert`
  unfoldable pub check_content : {S : Type 0} → C → Exec S (Unit {0})
  check_content content = do
    text ←
        or_raise (json.dumps content) (validation_error "content must not contain NaN or Infinity")
    bytes ← or_raise (json.encode text) value_error
    raise_if (ltb max_content_bytes (length bytes)) (validation_error "content exceeds 64 KB limit")

  -- `ContentService.upsert`
  unfoldable pub upsert : ℕ → String → C → Exec (List (SiteContent C)) (ContentRead C)
  upsert now key content = do
    check_content content
    row ← upsert_row now key content
    pure (to_read row)

  -- `put_content` behind `require_admin`
  unfoldable pub put_content :
      ℕ → String → C → List (SiteContent C) → Result (ContentRead C) × List (SiteContent C)
  put_content now key content =
      sqlalchemy_middleware (validate_key key >> transactional (execute (upsert now key content)))

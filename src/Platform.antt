-- ===== src/Platform.antt =====
-- What the program takes from outside its source: python-slugify behind
-- app/core/utils/slug.py, the collation by which the database compares texts, and the two clocks.
use blog_be.Prelude.{ℕ, String, ◌≡◌, Bool, true}
use blog_be.Prelude.Sort.{IsOrder}

pub record Platform : Type 0 where
  -- `slugify` of the package python-slugify, as slug.py calls it
  pub slugify_package : String → String
  -- `a <= b` on texts in the database
  pub text_le : String → String → Bool
  -- `datetime.now(tz=UTC)` of the process, in seconds
  pub app_now : ℕ
  -- `now()` of the database, the start of the transaction, in seconds
  pub db_now : ℕ

-- The collation is a total order in which different texts differ.
pub record IsCollation (le : String → String → Bool) : Type 0 where
  pub order : IsOrder le
  pub antisymm : (a b : String) → le a b ≡ true → le b a ≡ true → a ≡ b

module _ (env : Platform) where
  -- app/core/utils/slug.py
  unfoldable pub slugify : String → String
  slugify text = env.slugify_package text

  unfoldable pub normalize_tag : String → String
  unfolding slugify
  normalize_tag text = slugify text

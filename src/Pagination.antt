-- ===== src/Pagination.antt =====
-- app/core/pagination.py: the bounds of the query parameters, and a page of a result.
pub mod Laws
use blog_be.Prelude.{ℕ, ◌*◌, Bool, ◌&&◌, List, ltb, leb}

abbrev pub max_page : ℕ
max_page = 10000

abbrev pub max_page_size : ℕ
max_page_size = 100

-- `PageQuery` and `PageSizeQuery`; a negative number fails `ge=1` as 0 does
unfoldable pub page_query : ℕ → Bool
page_query page = leb 1 page && leb page max_page

unfoldable pub page_size_query : ℕ → Bool
page_size_query page_size = leb 1 page_size && leb page_size max_page_size

pub record PaginatedResponse {ℓ} (A : Type ℓ) : Type ℓ where
  pub items : List A
  pub total : ℕ
  pub page : ℕ
  pub page_size : ℕ
  pub has_next : Bool

-- `PaginatedResponse.build`
unfoldable pub build {ℓ} : {A : Type ℓ} → List A → ℕ → ℕ → ℕ → PaginatedResponse A
build items total page page_size = record {
  items = items;
  total = total;
  page = page;
  page_size = page_size;
  has_next = ltb (page * page_size) total;
}

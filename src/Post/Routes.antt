-- ===== src/Post/Routes.antt =====
-- The read routes of api/v1/posts.py, admin.py and search.py. Those of admin.py stand here without
-- their dependency `require_admin`.
use blog_be.Prelude.{ℕ, String, Bool, not, ◌&&◌, Option, none, some, List, map, length, leb}
use blog_be.Platform.{Platform}
use blog_be.Error.{request_validation_error}
use blog_be.Exec.{Exec, pure, gets, raise_if, ◌>>=◌, ◌>>◌}
use blog_be.Server.Http.{Reply, cached, uncached}
use blog_be.Pagination.{PaginatedResponse, build, page_query, page_size_query}
use blog_be.Database.{Post, Blog, PostKind, PostStatus}
use blog_be.Post.Schemas.{
  PostPublic, PostDetail, PostAdmin, PostNavItem, PostNavResponse, to_public, to_detail, to_admin,
  to_nav_item,
}
use blog_be.Post.Service.{
  list_all, list_published, search_posts, require_post, require_published, require_nav, load,
}

-- FastAPI's answer to a page or a page size out of bounds
abbrev pub check_page : {S : Type 0} → ℕ → ℕ → Exec S (Unit {0})
check_page page page_size =
    raise_if (not (page_query page && page_size_query page_size)) request_validation_error

-- `Query(min_length=1, max_length=100)` on the code points of the query
unfoldable pub search_query : List ℕ → Bool
search_query q = leb 1 (length q) && leb (length q) 100

module _ (env : Platform) where
  abbrev pub public_page : ℕ → ℕ → List Post × ℕ → Blog → PaginatedResponse PostPublic
  public_page page page_size result b =
      build (map (λ p. to_public (load env p b)) result.0) result.1 page page_size

  -- `list_posts`
  unfoldable pub list_posts :
      ℕ → ℕ → Option String → Option PostKind → Exec Blog (Reply (PaginatedResponse PostPublic))
  list_posts page page_size tag kind = do
    check_page page page_size
    result ← gets (list_published env page page_size tag kind)
    shown ← gets (public_page page page_size result)
    pure (cached shown)

  -- `get_post`
  unfoldable pub get_post : String → Exec Blog (Reply PostDetail)
  get_post post_id = do
    post ← require_published env post_id
    shown ← gets (λ b. to_detail (load env post b))
    pure (cached shown)

  abbrev pub nav_item : Blog → Option Post → Option PostNavItem
  nav_item b none = none
  nav_item b (some p) = some (to_nav_item (load env p b))

  -- `get_post_nav`
  unfoldable pub get_post_nav : String → Exec Blog (Reply PostNavResponse)
  get_post_nav post_id = do
    found ← require_nav env post_id
    shown ← gets (λ b. record { prev = nav_item b found.0; next = nav_item b found.1 })
    pure (cached shown)

  -- `list_admin_posts`
  unfoldable pub list_admin_posts :
      ℕ
      → ℕ
      → Option String
      → Option PostKind
      → Option PostStatus
      → Exec Blog (Reply (PaginatedResponse PostAdmin))
  list_admin_posts page page_size tag kind status = do
    check_page page page_size
    result ← gets (list_all env page page_size tag kind status)
    shown ← gets (λ b. build (map (λ p. to_admin (load env p b)) result.0) result.1 page page_size)
    pure (uncached shown)

  -- `get_admin_post`
  unfoldable pub get_admin_post : String → Exec Blog (Reply PostAdmin)
  get_admin_post post_id = do
    post ← require_post env post_id
    shown ← gets (λ b. to_admin (load env post b))
    pure (uncached shown)

  -- `search_posts` of api/v1/search.py
  unfoldable pub search_route :
      (List ℕ → String → Bool) → List ℕ → ℕ → ℕ → Exec Blog (Reply (PaginatedResponse PostPublic))
  search_route ilike q page page_size = do
    raise_if (not (search_query q)) request_validation_error
    check_page page page_size
    result ← gets (search_posts env ilike q page page_size)
    shown ← gets (public_page page page_size result)
    pure (uncached shown)

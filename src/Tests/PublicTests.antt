-- ===== src/Tests/PublicTests.antt =====
-- The public routes on the small database.
use blog_be.Prelude.{◌≡◌, refl, string_eq}
use blog_be.Exec.{err}
use blog_be.Error.{post_not_found}
use blog_be.Post.Repository.{get_published}
use blog_be.Post.Service.{require_published}
use blog_be.Post.Routes.{get_post}
use blog_be.Post.Public.{Public, nav_read, shown_by, Public-reads_published}
use blog_be.Tests.BlogData.{env, blog, blog-IsValid}
use blog_be.Tests.Ilike.{ilike_ascii}

draft_is_not_found : (get_post env "third" blog).0 ≡ err (post_not_found "third")
unfolding get_post require_published get_published
draft_is_not_found = refl

Public-reads_published_example :
    Public env ilike_ascii blog (shown_by env ilike_ascii (nav_read "first") blog).0
Public-reads_published_example =
    Public-reads_published env ilike_ascii blog blog-IsValid (nav_read "first")

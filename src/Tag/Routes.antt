-- ===== src/Tag/Routes.antt =====
-- The routes of api/v1/tags.py. The header is set before the tag is looked up, and a response that
-- reports an exception does not carry it.
use blog_be.Prelude.{String, List, map}
use blog_be.Platform.{Platform}
use blog_be.Exec.{Exec, pure, gets, ◌>>=◌}
use blog_be.Server.Http.{Reply, cached}
use blog_be.Database.{Blog}
use blog_be.Tag.{TagRead, list_with_counts, get_detail}
use blog_be.Post.Schemas.{PostPublic, to_public}
use blog_be.Post.Service.{load}

-- `TagDetailResponse`, with its posts as `PostPublic`
pub record TagDetail : Type 0 where
  pub tag : TagRead
  pub posts : List PostPublic

module _ (env : Platform) where
  -- `list_tags`
  unfoldable pub list_tags : Exec Blog (Reply (List TagRead))
  list_tags = do tags ← gets (list_with_counts env); pure (cached tags)

  -- `get_tag`
  unfoldable pub get_tag : String → Exec Blog (Reply TagDetail)
  get_tag name = do
    detail ← get_detail env name
    posts ← gets (λ b. map (λ p. to_public (load env p b)) detail.posts)
    pure (cached (record { tag = detail.tag; posts = posts }))

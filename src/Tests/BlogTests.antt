-- ===== src/Tests/BlogTests.antt =====
-- Posts, tags and pages.
use blog_be.Prelude.{
  ℕ, String, ◌+◌, ◌-◌, ◌*◌, ◌^◌, ◌≤◌, ◌<◌, ◌≡◌, refl, ◌↔◌, true, none, some, List, [], ◌∷◌, arith,
  length, string_eq, filter, ◌==◌, Bool,
}
use blog_be.Prelude.Sort.{sort}
use blog_be.Platform.{slugify}
use blog_be.Query.{page_of}
use blog_be.Error.{post_not_found}
use blog_be.Exec.{ok, err}
use blog_be.Session.{transactional, begin, execute, sqlalchemy_middleware}
use blog_be.Database.{Tag, Blog, essay, draft, update_post, rename_post}
use blog_be.Pagination.{build, page_query, page_size_query}
use blog_be.Pagination.Laws.{has_next_of, first_pages, pages_cover, has_next_iff, page_bounds}
use blog_be.Tag.{ensure, get_detail, list_with_counts}
use blog_be.Tag.Counts.{IsTagPage, IsTagList, tag_counts_agree}
use blog_be.Tag.Ensure.{Ensured, ensure_tags}
use blog_be.Post.Schemas.{Entity}
use blog_be.Post.Repository.{
  list_all, search_posts, search_pattern, get_nav, exists, get_by_id, order_all, base_all,
}
use blog_be.Post.Service.{
  create, update_fields, delete_by_id, require_post, update_id, update_tags, rename,
}
use blog_be.Post.Listing.{IsListing, is_selected, list_all-IsListing}
use blog_be.Post.Listing.Found.{is_found, ranks_before, search_posts-IsListing}
use blog_be.Post.Nav.Nearest.{IsPrev, IsNext, nav_nearest}
use blog_be.Post.Nav.Inverse.{next_of_prev, prev_of_next}
use blog_be.Post.Writes.Create.{IsCreated, create_stores}
use blog_be.Post.Writes.Edit.{IsEdited, patch_stores}
use blog_be.Post.Writes.Requests.{Write, request}
use blog_be.Tests.Collation.{text_le-IsCollation}
use blog_be.Tests.BlogData.{
  env, blog, blog-IsValid, first_post, second_post, new_post_payload, rename_payload, retag_payload,
}

abbrev rows : List ℕ
rows = 1 ∷ 2 ∷ 3 ∷ []

abbrev title_only : List ℕ → String → Bool
title_only pattern text = text == first_post.title

rename_moves_links :
    (update_fields env "first" rename_payload blog).1.post_tags
    ≡ record { post_id = "renamed"; tag_name = "python" } ∷ []
unfolding update_fields require_post get_by_id update_post update_tags update_id rename exists
    rename_post
rename_moves_links = refl

delete_missing_fails :
    (request env (Write.delete_post "nowhere") blog).0 ≡ err (post_not_found "nowhere")
unfolding sqlalchemy_middleware transactional begin execute delete_by_id require_post get_by_id
delete_missing_fails = refl

create_stores_example :
    (e : Entity) × (b' : Blog) × (create env new_post_payload blog ≡ (ok e, b'))
    × IsCreated env new_post_payload blog e b'
unfolding slugify
create_stores_example = create_stores env new_post_payload blog blog-IsValid refl

patch_stores_example :
    (e : Entity) × (b' : Blog) × (update_fields env "first" retag_payload blog ≡ (ok e, b'))
    × IsEdited env "first" retag_payload first_post blog e b'
unfolding get_by_id
patch_stores_example =
    patch_stores env "first" retag_payload blog first_post blog-IsValid refl (λ moves. refl)

ensure_tags_example :
    (tags : List Tag) × (b' : Blog) × (ensure env ("go" ∷ "python" ∷ "go" ∷ []) blog
      ≡ (ok tags, b'))
    × Ensured ("go" ∷ "python" ∷ "go" ∷ []) blog tags b'
ensure_tags_example = ensure_tags env ("go" ∷ "python" ∷ "go" ∷ []) blog blog-IsValid

tag_counts_agree_example :
    IsTagPage env blog "python"
      (some (record { name = "python"; created_at = 1 }))
      (get_detail env "python" blog)
    × IsTagList env blog (list_with_counts env blog)
tag_counts_agree_example = tag_counts_agree env text_le-IsCollation blog blog-IsValid "python"

next_of_prev_example : (get_nav env second_post blog).1 ≡ some first_post
unfolding get_nav
next_of_prev_example =
    next_of_prev env text_le-IsCollation blog blog-IsValid first_post second_post refl refl refl

prev_of_next_example : (get_nav env first_post blog).0 ≡ some second_post
unfolding get_nav
prev_of_next_example =
    prev_of_next env text_le-IsCollation blog blog-IsValid second_post first_post refl refl refl

nav_nearest_example :
    IsPrev env blog first_post (some second_post) × IsNext env blog first_post none
unfolding get_nav
nav_nearest_example = nav_nearest env text_le-IsCollation blog first_post blog-IsValid

list_all_example :
    IsListing
      (order_all env)
      (is_selected none (some essay) (some draft) blog)
      blog
      1
      2
      (list_all env 1 2 none (some essay) (some draft) blog)
      (sort (order_all env) (base_all none (some essay) (some draft) blog))
list_all_example =
    list_all-IsListing env text_le-IsCollation blog blog-IsValid 1 2 none (some essay) (some draft)

search_posts_example :
    let found = is_found (title_only (search_pattern (b'f' ∷ []))) in
    let ranks = ranks_before (title_only (search_pattern (b'f' ∷ []))) env in
    IsListing ranks found blog 1 1
      (search_posts env title_only (b'f' ∷ []) 1 1 blog)
      (sort ranks (filter found blog.posts))
search_posts_example =
    search_posts-IsListing env text_le-IsCollation blog 1 1 title_only (b'f' ∷ []) blog-IsValid

pages_cover_example : first_pages 2 2 rows ≡ rows
unfolding build
pages_cover_example = pages_cover 2 2 rows refl

has_next_iff_example : (has_next_of 1 2 rows ≡ true) ↔ (0 < length (page_of 2 2 rows))
has_next_iff_example = has_next_iff 1 2 rows (omega arith)

page_bounds_example : ((3 - 1) * 20 + 20 < 2 ^ 63) × (length (page_of 3 20 rows) ≤ 100)
unfolding page_query page_size_query
page_bounds_example = page_bounds 3 20 rows refl refl

-- ===== src/Post/Public.antt =====
-- What the public routes show: published posts only, as they are in the database.
pub mod Rows
use mathlib.Core.Path.{subst}
use blog_be.Prelude.{
  ℕ, zero, suc, String, ◌≡◌, refl, ◌∙◌, ap, sym, Bool, true, false, not, ◌&&◌, Option, none, some,
  List, [], ◌∷◌, ◌++◌, map, ◌==◌, string_eq, filter, take, drop, All, All-map, All-filter,
  All-filter_self, All-append, Bool-cases, Option-cases, inl, inr, arith,
}
use blog_be.Prelude.Table.{lookup, key-lookup}
use blog_be.Prelude.Sort.{sort, All-sort}
use blog_be.Platform.{Platform}
use blog_be.Query.{page_of, unique, join_tag}
use blog_be.Query.Join.{is_tagged, join_tag-eq-filter}
use blog_be.Exec.{Result, ok, err, Exec, bind, pure, ◌>>=◌}
use blog_be.Server.Http.{Reply, cached}
use blog_be.Pagination.{build, page_query, page_size_query}
use blog_be.Database.{Post, Blog, PostKind, IsValid, post_key, status_eq}
use blog_be.Tag.{get_detail, list_by_tag, get_count, get, TagDetailResponse}
use blog_be.Tag.Routes.{get_tag}
use blog_be.Post.Schemas.{
  PostPublic, PostDetail, PostNavItem, PostNavResponse, to_public, to_detail, to_nav_item,
}
use blog_be.Post.Repository.{
  is_published, get_published, list_published, base_published, search_posts, is_hit, is_older,
  is_newer, newest_first, oldest_first, first_row, get_nav, search_pattern, order_search,
  order_published,
}
use blog_be.Post.Listing.{is_listed, base_published-eq}
use blog_be.Post.Nav.{IsRow, lookup_self, first-IsRow}
use blog_be.Post.Service.{load, require_published, require_nav}
use blog_be.Post.Routes.{
  list_posts, get_post, get_post_nav, search_route, search_query, public_page, nav_item,
}
use blog_be.Post.Public.Rows.{
  IsPublicRow, rows_published, chosen_rows, page-rows, unique-rows, All-found,
}

-- A post in a response, in the shapes of the public routes.
pub data Shown : Type 0 where
  summary : PostPublic → Shown
  detail : PostDetail → Shown
  neighbour : PostNavItem → Shown

-- the public routes that show posts, with their parameters
pub data PublicRead : Type 0 where
  posts_read : ℕ → ℕ → Option String → Option PostKind → PublicRead
  post_read nav_read tag_read : String → PublicRead
  search_read : List ℕ → ℕ → ℕ → PublicRead

abbrev neighbours : Option PostNavItem → List Shown
neighbours none = []
neighbours (some item) = neighbour item ∷ []

module _ (env : Platform) (ilike : List ℕ → String → Bool) where
  -- what is shown of a published post of the table
  abbrev pub IsShownOf : Blog → Shown → Type 0
  IsShownOf b (summary x) = (p : Post) × (IsPublicRow b p) × (x ≡ to_public (load env p b))
  IsShownOf b (detail x) = (p : Post) × (IsPublicRow b p) × (x ≡ to_detail (load env p b))
  IsShownOf b (neighbour x) = (p : Post) × (IsPublicRow b p) × (x ≡ to_nav_item (load env p b))

  -- the posts in the response to a read
  abbrev pub shown_by : PublicRead → Exec Blog (List Shown)
  shown_by (posts_read page page_size tag kind) =
      list_posts env page page_size tag kind >>= λ r. pure (map summary r.body.items)
  shown_by (post_read post_id) = get_post env post_id >>= λ r. pure (detail r.body ∷ [])
  shown_by (nav_read post_id) =
      get_post_nav env post_id >>= λ r. pure (neighbours r.body.prev ++ neighbours r.body.next)
  shown_by (search_read q page page_size) =
      search_route env ilike q page page_size >>= λ r. pure (map summary r.body.items)
  shown_by (tag_read name) = get_tag env name >>= λ r. pure (map summary r.body.posts)

  -- an answer shows published posts only
  abbrev pub Public : Blog → Result (List Shown) → Type 0
  Public b (ok posts) = All (IsShownOf b) posts
  Public b (err e) = Unit

  summaries :
      (b : Blog) (posts : List Post)
      → All (IsPublicRow b) posts
      → All (IsShownOf b) (map summary (map (λ p. to_public (load env p b)) posts))
  summaries b [] h = tt
  summaries b (p ∷ posts) h = ((p, h.0, refl), summaries b posts h.1)

  module _ (b : Blog) (v : IsValid b) where
    list_posts-Public :
        (page page_size : ℕ) (tag : Option String) (kind : Option PostKind)
        → Public b (shown_by (posts_read page page_size tag kind) b).0
    unfolding list_posts list_published build
    list_posts-Public page page_size tag kind =
        elim (Bool-cases (page_query page && page_size_query page_size)) [
          | inl fit ↦ rw fit (
              summaries b _ (
                page-rows b page page_size (order_published env) (base_published tag kind b) (
                  rw (base_published-eq b v tag kind)
                    (chosen_rows b (is_listed tag kind b) v (λ p h. ground arith)))))
          | inr unfit ↦ rw unfit tt
        ]

    search-Public :
        (q : List ℕ) (page page_size : ℕ) → Public b (shown_by (search_read q page page_size) b).0
    unfolding search_route search_posts build
    search-Public q page page_size = elim (Bool-cases (search_query q)) [
      | inl asked ↦ elim (Bool-cases (page_query page && page_size_query page_size)) [
        | inl fit ↦
            rw (asked, fit)
              (summaries b _ (
                page-rows b page page_size _ _
                  (chosen_rows b (is_hit env ilike (search_pattern q)) v (λ p h. ground arith))))
        | inr unfit ↦ rw (asked, unfit) tt
      ]
      | inr unasked ↦ rw unasked tt
    ]

    published_row :
        (post_id : String) (p : Post) → get_published post_id b ≡ some p → IsPublicRow b p
    unfolding get_published
    published_row post_id p e =
        All-found (IsPublicRow b) post_id (filter is_published b.posts) p e
          (chosen_rows b is_published v (λ q h. h))

    get_post-Public : (post_id : String) → Public b (shown_by (post_read post_id) b).0
    unfolding get_post require_published
    get_post-Public post_id = elim (Option-cases (get_published post_id b)) [
      | inl absent ↦ rw absent tt
      | inr (p, found) ↦ rw found ((p, published_row post_id p found, refl), tt)
    ]

    neighbours-Public :
        (o : Option Post)
        → ((p : Post) → o ≡ some p → IsPublicRow b p)
        → All (IsShownOf b) (neighbours (nav_item env b o))
    neighbours-Public none h = tt
    neighbours-Public (some p) h = ((p, h p refl, refl), tt)

    prev_row : (p q : Post) → (get_nav env p b).0 ≡ some q → IsPublicRow b q
    unfolding get_nav
    prev_row p q e =
        let row : (IsRow b q) × (is_older env p q ≡ true) =
          first-IsRow b v (newest_first env) (is_older env p) e in
        (row.0, ground (arith, row.1))

    next_row : (p q : Post) → (get_nav env p b).1 ≡ some q → IsPublicRow b q
    unfolding get_nav
    next_row p q e =
        let row : (IsRow b q) × (is_newer env p q ≡ true) =
          first-IsRow b v (oldest_first env) (is_newer env p) e in
        (row.0, ground (arith, row.1))

    get_nav-Public : (post_id : String) → Public b (shown_by (nav_read post_id) b).0
    unfolding get_post_nav require_nav require_published
    get_nav-Public post_id = elim (Option-cases (get_published post_id b)) [
      | inl absent ↦ rw absent tt
      | inr (p, found) ↦ rw found (
          All-append (IsShownOf b) (neighbours (nav_item env b (get_nav env p b).0))
            (neighbours (nav_item env b (get_nav env p b).1))
            (neighbours-Public (get_nav env p b).0 (prev_row p))
            (neighbours-Public (get_nav env p b).1 (next_row p)))
    ]

    tag_rows : (name : String) → All (IsPublicRow b) (list_by_tag env name b)
    unfolding list_by_tag
    tag_rows name = unique-rows b _ (
        All-sort _ (IsPublicRow b) _ (
          rows_published b (filter is_published (join_tag name b.post_tags b.posts))
            (All-filter (IsRow b) is_published (join_tag name b.post_tags b.posts) (
              rw (join_tag-eq-filter name b.post_tags b.posts v.links_unique) (
                All-filter (IsRow b) (is_tagged b.post_tags name) b.posts
                  (lookup_self b.posts v.posts_unique))))
            (All-filter_self is_published (join_tag name b.post_tags b.posts))))

    get_tag-Public : (name : String) → Public b (shown_by (tag_read name) b).0
    unfolding get_tag get_detail
    get_tag-Public name = elim (Option-cases (get name b)) [
      | inl absent ↦ rw absent tt
      | inr (tag, found) ↦ rw found (summaries b (list_by_tag env name b) (tag_rows name))
    ]

    -- On a valid database a public route answers with an error, or each post that it shows, as an item
    -- of a list, a page of its own, a neighbour or a post of a tag, is a published post of the table
    -- with the columns and the tags that it has there.
    pub Public-reads_published : (read : PublicRead) → Public b (shown_by read b).0
    Public-reads_published (posts_read page page_size tag kind) =
        list_posts-Public page page_size tag kind
    Public-reads_published (post_read post_id) = get_post-Public post_id
    Public-reads_published (nav_read post_id) = get_nav-Public post_id
    Public-reads_published (tag_read name) = get_tag-Public name
    Public-reads_published (search_read q page page_size) = search-Public q page page_size

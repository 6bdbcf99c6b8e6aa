-- ===== src/Post/Listing.antt =====
-- What `list_published`, `list_all` and `search` return: pages of one sorted list of the rows.
pub mod Found
use mathlib.Core.List.{Perm}
use blog_be.Prelude.{
  ℕ, ◌-◌, ◌*◌, String, ◌≡◌, refl, ◌∙◌, ap, sym, Bool, true, ◌&&◌, Option, none, some, List, ◌==◌,
  string_eq, filter, filter-filter, length,
}
use blog_be.Prelude.Table.{IsUnique, filter-IsUnique}
use blog_be.Prelude.Sort.{IsOrder, sort, IsSorted, sort-IsSorted, perm-sort, length-sort}
use blog_be.Prelude.Unique.{sort-IsUnique, take-IsUnique, drop-IsUnique}
use blog_be.Platform.{Platform, IsCollation}
use blog_be.Query.{page_of, unique}
use blog_be.Query.Order.{desc_by-IsOrder, asc_by-IsOrder}
use blog_be.Query.Join.{is_tagged, join_tag-eq-filter, unique_lem}
use blog_be.Database.{
  Post, PostTag, Blog, PostKind, PostStatus, kind_eq, status_eq, post_key, post_tag_eq, IsValid,
}
use blog_be.Post.Repository.{
  is_published, where_kind, where_status, with_tag, base_published, base_all, list_all, order_all,
  order_search, search_posts, search_pattern, is_hit, score,
}

abbrev pub tag_test : Option String → List PostTag → Post → Bool
tag_test none links p = true
tag_test (some tag) links p = is_tagged links tag p

abbrev pub kind_test : Option PostKind → Post → Bool
kind_test none p = true
kind_test (some kind) p = p.kind == kind

abbrev pub status_test : Option PostStatus → Post → Bool
status_test none p = true
status_test (some status) p = p.status == status

filter-true : (rows : List Post) → filter (λ _. true) rows ≡ rows
filter-true List.[] = refl
filter-true (List.◌∷◌ p rows) = ap (λ l. List.◌∷◌ p l) (filter-true rows)

with_tag-eq-filter :
    (tag : Option String) (links : List PostTag) (rows : List Post)
    → IsUnique (λ (l : PostTag). l) links
    → with_tag tag links rows ≡ filter (tag_test tag links) rows
with_tag-eq-filter none links rows u = sym (filter-true rows)
with_tag-eq-filter (some tag) links rows u = join_tag-eq-filter tag links rows u

where_kind-eq-filter :
    (kind : Option PostKind) (rows : List Post)
    → where_kind kind rows ≡ filter (kind_test kind) rows
where_kind-eq-filter none rows = sym (filter-true rows)
where_kind-eq-filter (some kind) rows = refl

where_status-eq-filter :
    (status : Option PostStatus) (rows : List Post)
    → where_status status rows ≡ filter (status_test status) rows
where_status-eq-filter none rows = sym (filter-true rows)
where_status-eq-filter (some status) rows = refl

-- the posts that a public list shows
abbrev pub is_listed : Option String → Option PostKind → Blog → Post → Bool
is_listed tag kind b p = (is_published p && tag_test tag b.post_tags p) && kind_test kind p

-- the posts that the admin list shows
abbrev pub is_selected : Option String → Option PostKind → Option PostStatus → Blog → Post → Bool
is_selected tag kind status b p =
    (tag_test tag b.post_tags p && kind_test kind p) && status_test status p

-- A page of `rows`, and how many there are, where `rows` are the chosen posts in the given order.
pub record IsListing (le : Post → Post → Bool) (chosen : Post → Bool) (b : Blog)
    (page page_size : ℕ) (result : List Post × ℕ) (rows : List Post) : Type 0 where
  pub items : result.0 ≡ page_of page page_size rows
  pub total : result.1 ≡ length rows
  pub sorted : IsSorted le rows
  pub exactly : Perm rows (filter chosen b.posts)

pub base_published-eq :
    (b : Blog) (v : IsValid b) (tag : Option String) (kind : Option PostKind)
    → base_published tag kind b ≡ filter (is_listed tag kind b) b.posts
unfolding base_published
base_published-eq b v tag kind =
    where_kind-eq-filter kind (with_tag tag b.post_tags (filter is_published b.posts))
    ∙ ap (filter (kind_test kind)) (
        with_tag-eq-filter tag b.post_tags (filter is_published b.posts) v.links_unique
        ∙ filter-filter (tag_test tag b.post_tags) is_published b.posts)
    ∙ filter-filter (kind_test kind) _ b.posts

base_all-eq :
    (b : Blog) (v : IsValid b) (tag : Option String) (kind : Option PostKind)
    (status : Option PostStatus)
    → base_all tag kind status b ≡ filter (is_selected tag kind status b) b.posts
unfolding base_all
base_all-eq b v tag kind status =
    where_status-eq-filter status (where_kind kind (with_tag tag b.post_tags b.posts))
    ∙ ap (filter (status_test status)) (
        where_kind-eq-filter kind (with_tag tag b.post_tags b.posts)
        ∙ ap (filter (kind_test kind)) (with_tag-eq-filter tag b.post_tags b.posts v.links_unique)
        ∙ filter-filter (kind_test kind) (tag_test tag b.post_tags) b.posts)
    ∙ filter-filter (status_test status) _ b.posts

module _ (b : Blog) (v : IsValid b) (page page_size : ℕ) (le : Post → Post → Bool)
    (o : IsOrder le) where
  pub sorted_filter-IsListing :
      (chosen : Post → Bool) (base : List Post)
      → base ≡ filter chosen b.posts
      → IsListing le chosen b page page_size
          (unique (page_of page page_size (sort le base)), length base)
          (sort le base)
  sorted_filter-IsListing chosen base e = record {
    items =
        unfold page_of in
        unique_lem _ (
          take-IsUnique post_key page_size _ (
            drop-IsUnique post_key ((page - 1) * page_size) _ (
              sort-IsUnique post_key le base
                (rw e (filter-IsUnique post_key chosen b.posts v.posts_unique)))));
    total = sym (length-sort le base);
    sorted = sort-IsSorted le o base;
    exactly = rw (← e) (perm-sort le base);
  }

module _ (env : Platform) (col : IsCollation env.text_le) (b : Blog) (v : IsValid b)
    (page page_size : ℕ) where
  -- On a valid database the admin list returns a page of one list, sorted by the time of the last
  -- update and then by id, of exactly the posts that have the tag, the kind and the status, and the
  -- number of these posts.
  pub list_all-IsListing :
      (tag : Option String) (kind : Option PostKind) (status : Option PostStatus)
      → IsListing
          (order_all env)
          (is_selected tag kind status b)
          b
          page
          page_size
          (list_all env page page_size tag kind status b)
          (sort (order_all env) (base_all tag kind status b))
  unfolding list_all
  list_all-IsListing tag kind status =
      sorted_filter-IsListing b v page page_size _
        (desc_by-IsOrder (λ p. p.updated_at) _ (asc_by-IsOrder post_key col.order))
        (is_selected tag kind status b) (base_all tag kind status b)
        (base_all-eq b v tag kind status)

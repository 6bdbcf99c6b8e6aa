-- ===== src/Post/Repository.antt =====
-- app/post/infrastructure/repository.py. `list_by_tag` stands in Tag, beside its only caller.
use Prim.Native.Nat.{ℕ, ◌+◌}
use blog_be.Prelude.{
  String, Bool, true, false, not, ◌&&◌, ◌||◌, Option, none, some, List, [], ◌∷◌, ◌++◌, ◌==◌, nat_eq,
  string_eq, if◌then◌else◌, filter, length, ltb,
}
use blog_be.Prelude.Table.{lookup, has}
use blog_be.Prelude.Sort.{sort}
use blog_be.Platform.{Platform}
use blog_be.Query.{desc_by, bool_rank, join_tag, page_of, unique}
use blog_be.Database.{
  Post, PostTag, Blog, PostKind, PostStatus, published, kind_eq, status_eq, post_key,
}

abbrev pub is_published : Post → Bool
is_published p = p.status == published

-- `base.where(…)` if the parameter is given
abbrev pub where_kind : Option PostKind → List Post → List Post
where_kind none rows = rows
where_kind (some kind) rows = filter (λ p. p.kind == kind) rows

abbrev pub where_status : Option PostStatus → List Post → List Post
where_status none rows = rows
where_status (some status) rows = filter (λ p. p.status == status) rows

-- `base.join(post_tags, …).where(tag_name == tag)` if the tag is given
abbrev pub with_tag : Option String → List PostTag → List Post → List Post
with_tag none links rows = rows
with_tag (some tag) links rows = join_tag tag links rows

-- `get_by_id`
unfoldable pub get_by_id : String → Blog → Option Post
get_by_id post_id b = lookup post_key post_id b.posts

-- `get_published`
unfoldable pub get_published : String → Blog → Option Post
get_published post_id b = lookup post_key post_id (filter is_published b.posts)

-- `exists`
unfoldable pub exists : String → Blog → Bool
exists post_id b = has post_key post_id b.posts

-- the rows of the statement that `list_all` counts
unfoldable pub base_all : Option String → Option PostKind → Option PostStatus → Blog → List Post
base_all tag kind status b =
    where_status status (where_kind kind (with_tag tag b.post_tags b.posts))

-- the rows of the statement that `list_published` counts
unfoldable pub base_published : Option String → Option PostKind → Blog → List Post
base_published tag kind b = where_kind kind (with_tag tag b.post_tags (filter is_published b.posts))

-- `q.replace(c, "\\" + c)` on the code points
abbrev pub escape_char : ℕ → List ℕ → List ℕ
escape_char c [] = []
escape_char c (x ∷ q) = if x == c then b'\\' ∷ c ∷ escape_char c q else x ∷ escape_char c q

-- the pattern of `search`: the backslash first, then `%` and `_`
unfoldable pub search_pattern : List ℕ → List ℕ
search_pattern q = b'%' ∷ (escape_char b'_' (escape_char b'%' (escape_char b'\\' q)) ++ b'%' ∷ [])

-- `limit(1)` and `scalar_one_or_none`
abbrev pub first_row : List Post → Option Post
first_row [] = none
first_row (p ∷ rows) = some p

module _ (env : Platform) where
  abbrev pub by_id : Post → Post → Bool
  by_id p q = env.text_le p.id q.id

  abbrev pub order_all : Post → Post → Bool
  order_all = desc_by (λ p. p.updated_at) by_id

  abbrev pub order_published : Post → Post → Bool
  order_published = desc_by (λ p. bool_rank p.featured) (desc_by (λ p. p.date) by_id)

  -- `list_all`
  unfoldable pub list_all :
      ℕ → ℕ → Option String → Option PostKind → Option PostStatus → Blog → List Post × ℕ
  unfolding base_all page_of
  list_all page page_size tag kind status b =
      let base = base_all tag kind status b in
      (unique (page_of page page_size (sort order_all base)), length base)

  -- `list_published`
  unfoldable pub list_published : ℕ → ℕ → Option String → Option PostKind → Blog → List Post × ℕ
  unfolding base_published page_of
  list_published page page_size tag kind b =
      let base = base_published tag kind b in
      (unique (page_of page page_size (sort order_published base)), length base)

  -- `Post.id > post.id` and `Post.id < post.id` in the database
  abbrev pub text_lt : String → String → Bool
  text_lt s t = env.text_le s t && not (s == t)

  abbrev pub is_older : Post → Post → Bool
  is_older post p =
      is_published p
      && not (p.id == post.id)
      && (ltb p.date post.date || (p.date == post.date && text_lt post.id p.id))

  abbrev pub is_newer : Post → Post → Bool
  is_newer post p =
      is_published p
      && not (p.id == post.id)
      && (ltb post.date p.date || (p.date == post.date && text_lt p.id post.id))

  -- `order_by(desc(Post.date), Post.id)`
  abbrev pub newest_first : Post → Post → Bool
  newest_first = desc_by (λ p. p.date) by_id

  -- `order_by(Post.date, desc(Post.id))`
  abbrev pub oldest_first : Post → Post → Bool
  oldest_first p q =
      if ltb p.date q.date then true else if ltb q.date p.date then false else env.text_le q.id p.id

  -- `get_nav`
  unfoldable pub get_nav : Post → Blog → Option Post × Option Post
  get_nav post b = (
    first_row (sort newest_first (filter (is_older post) b.posts)),
    first_row (sort oldest_first (filter (is_newer post) b.posts)),
  )

  -- `Text ILIKE pattern ESCAPE '\'` on the three columns; a NULL content does not match
  module _ (ilike : List ℕ → String → Bool) where
    abbrev pub content_matches : List ℕ → Option String → Bool
    content_matches pattern none = false
    content_matches pattern (some content) = ilike pattern content

    abbrev pub score : List ℕ → Post → ℕ
    score pattern p =
        (if ilike pattern p.title then 3 else 0)
        + (if ilike pattern p.excerpt then 2 else 0)
        + (if content_matches pattern p.content then 1 else 0)

    abbrev pub is_hit : List ℕ → Post → Bool
    is_hit pattern p =
        is_published p
        && (ilike pattern p.title || ilike pattern p.excerpt || content_matches pattern p.content)

    abbrev pub order_search : List ℕ → Post → Post → Bool
    order_search pattern = desc_by (score pattern) (desc_by (λ p. p.date) by_id)

    -- `search`
    unfoldable pub search_posts : List ℕ → ℕ → ℕ → Blog → List Post × ℕ
    unfolding search_pattern page_of
    search_posts q page page_size b =
        let pattern = search_pattern q in
        let base = filter (is_hit pattern) b.posts in
        (unique (page_of page page_size (sort (order_search pattern) base)), length base)

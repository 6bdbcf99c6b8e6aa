-- ===== src/Tag.antt =====
-- app/tag: `TagRepository` (infrastructure/repository.py) and `TagService` (application/service.py).
pub mod Ensure
pub mod Counts
pub mod Routes
use blog_be.Prelude.{
  ℕ, ◌+◌, String, Bool, true, false, not, ◌&&◌, Option, none, some, List, [], ◌∷◌, ◌++◌, map, ◌==◌,
  string_eq, if◌then◌else◌, filter, any, length,
}
use blog_be.Prelude.Table.{lookup}
use blog_be.Prelude.Sort.{sort}
use blog_be.Platform.{Platform}
use blog_be.Query.{desc_by, join_tag, unique}
use blog_be.Error.{tag_not_found}
use blog_be.Exec.{Exec, ok, pure, gets, or_raise, ◌>>=◌, ◌>>◌}
use blog_be.Database.{
  Post, Tag, PostTag, Blog, PostStatus, published, status_eq, tag_key, insert_tag,
}

abbrev pub contains : List String → String → Bool
contains names n = any (λ m. m == n) names

-- `TagRepository.get`
unfoldable pub get : String → Blog → Option Tag
get name b = lookup tag_key name b.tags

abbrev pub is_published : Post → Bool
is_published p = p.status == published

-- `count(Post.id)` over the rows that the two outer joins give for one tag
unfoldable pub post_count : String → List Post → List PostTag → ℕ
post_count name posts [] = 0
post_count name posts (l ∷ links) =
    (if l.tag_name == name
      then length (filter (λ p. p.id == l.post_id && is_published p) posts)
      else 0)
    + post_count name posts links

-- `TagRepository.get_count`
unfoldable pub get_count : String → Blog → ℕ
get_count name b = length (filter is_published (join_tag name b.post_tags b.posts))

-- `TagRepository.get_many`
unfoldable pub get_many : List String → Blog → List Tag
get_many [] b = []
get_many (n ∷ names) b = filter (λ t. contains (n ∷ names) t.name) b.tags

-- `list(dict.fromkeys(names))`
unfoldable pub dedupe : List String → List String
dedupe [] = []
dedupe (n ∷ names) = n ∷ filter (λ m. not (m == n)) (dedupe names)

-- `[Tag(name=n) for n in names if n not in existing_names]`
abbrev pub missing : ℕ → List Tag → List String → List Tag
missing now existing names =
    map (λ n. record { name = n; created_at = now })
      (filter (λ n. not (any (λ t. t.name == n) existing)) names)

-- `session.add` for each new tag, and the flush
unfoldable pub add_tags : List Tag → Exec Blog (Unit {0})
unfolding insert_tag
add_tags [] = λ b. (ok tt, b)
add_tags (t ∷ tags) = do add_tags tags; insert_tag t

pub record TagRead : Type 0 where
  pub name : String
  pub count : ℕ

pub record TagDetailResponse : Type 0 where
  pub tag : TagRead
  pub posts : List Post

module _ (env : Platform) where
  abbrev pub tag_order : TagRead → TagRead → Bool
  tag_order = desc_by (λ t. t.count) (λ s t. env.text_le s.name t.name)

  -- `TagRepository.list_with_counts` and `TagService.list_with_counts`
  unfoldable pub list_with_counts : Blog → List TagRead
  unfolding post_count
  list_with_counts b =
      sort tag_order
        (map (λ t. record { name = t.name; count = post_count t.name b.posts b.post_tags }) b.tags)

  -- `PostRepository.list_by_tag`
  unfoldable pub list_by_tag : String → Blog → List Post
  list_by_tag name b = unique (
      sort (desc_by (λ p. p.date) (λ p q. env.text_le p.id q.id))
        (filter is_published (join_tag name b.post_tags b.posts)))

  -- `TagService.get_detail`
  unfoldable pub get_detail : String → Exec Blog TagDetailResponse
  unfolding get get_count list_by_tag
  get_detail name = do
    tag ← (λ b. or_raise (get name b) (tag_not_found name) b)
    count ← gets (get_count name)
    posts ← gets (list_by_tag name)
    pure (record { tag = record { name = tag.name; count = count }; posts = posts })

  abbrev pub ensure_unique : List String → Exec Blog (List Tag)
  ensure_unique names = do
    existing ← gets (get_many names)
    let new_tags = missing env.db_now existing names
    add_tags new_tags
    pure (existing ++ new_tags)

  -- the early return on no names
  abbrev pub ensure_names : List String → Exec Blog (List Tag)
  ensure_names [] = pure []
  ensure_names (n ∷ names) = ensure_unique (n ∷ names)

  -- `TagRepository.ensure`
  unfoldable pub ensure : List String → Exec Blog (List Tag)
  unfolding dedupe get_many add_tags
  ensure names = ensure_names (dedupe names)

-- ===== src/Database/Validity.antt =====
-- Every statement keeps the constraints.
use blog_be.Prelude.{
  String, ◌≡◌, refl, ◌∙◌, Bool, not, ◌&&◌, Bool-cases, inl, inr, string_eq, All-map, All-filter,
  List, [], ◌∷◌, arith,
}
use blog_be.Prelude.Table.{has, has-update, update-IsUnique, filter-IsUnique, rename-IsUnique}
use blog_be.Database.{
  Post, Tag, PostTag, Blog, IsValid, post_key, link_key, has_post, has_tag, insert_post, insert_tag,
  insert_link, insert_links, assign_tags, update_post, delete_post, rename_post, set_id,
  post_tag_eq,
}
use blog_be.Database.Links.{move-IsUnique, links_off_new, links_follow, links_survive, All-move}

module _ (b : Blog) (v : IsValid b) where
  pub insert_post-IsValid : (p : Post) → IsValid (insert_post p b).1
  unfolding insert_post
  insert_post-IsValid p = elim (Bool-cases (has_post p.id b)) [
    | inl taken ↦ rw taken v
    | inr free ↦ rw free (record {
      posts_unique = (free, v.posts_unique);
      tags_unique = v.tags_unique;
      links_unique = v.links_unique;
      links_posts = All-map _ _ (λ l h. ground arith) b.post_tags v.links_posts;
      links_tags = v.links_tags;
    })
  ]

  pub insert_tag-IsValid : (t : Tag) → IsValid (insert_tag t b).1
  unfolding insert_tag
  insert_tag-IsValid t = elim (Bool-cases (has_tag t.name b)) [
    | inl taken ↦ rw taken v
    | inr free ↦ rw free (record {
      posts_unique = v.posts_unique;
      tags_unique = (free, v.tags_unique);
      links_unique = v.links_unique;
      links_posts = v.links_posts;
      links_tags = All-map _ _ (λ l h. ground arith) b.post_tags v.links_tags;
    })
  ]

  abbrev may_insert : PostTag → Bool
  may_insert l = has_post l.post_id b && has_tag l.tag_name b && not (has link_key l b.post_tags)

  pub insert_link-IsValid : (l : PostTag) → IsValid (insert_link l b).1
  unfolding insert_link
  insert_link-IsValid l = elim (Bool-cases (may_insert l)) [
    | inl fits ↦ rw fits (record {
      posts_unique = v.posts_unique;
      tags_unique = v.tags_unique;
      links_unique = (ground arith, v.links_unique);
      links_posts = (ground arith, v.links_posts);
      links_tags = (ground arith, v.links_tags);
    })
    | inr refused ↦ rw refused v
  ]

  pub update_post-IsValid :
      (id : String) (f : Post → Post)
      → ((p : Post) → (f p).id ≡ p.id)
      → IsValid (update_post id f b).1
  unfolding update_post
  update_post-IsValid id f keeps = record {
    posts_unique = update-IsUnique post_key id f keeps b.posts v.posts_unique;
    tags_unique = v.tags_unique;
    links_unique = v.links_unique;
    links_posts =
        All-map _ _ (λ l h. has-update post_key id f keeps l.post_id b.posts ∙ h) b.post_tags
          v.links_posts;
    links_tags = v.links_tags;
  }

  pub delete_post-IsValid : (id : String) → IsValid (delete_post id b).1
  unfolding delete_post
  delete_post-IsValid id = record {
    posts_unique = filter-IsUnique post_key _ b.posts v.posts_unique;
    tags_unique = v.tags_unique;
    links_unique = filter-IsUnique link_key _ b.post_tags v.links_unique;
    links_posts = links_survive id b.posts b.post_tags v.links_posts;
    links_tags = All-filter _ _ b.post_tags v.links_tags;
  }

  pub rename_post-IsValid : (old new : String) → IsValid (rename_post old new b).1
  unfolding rename_post
  rename_post-IsValid old new = elim (Bool-cases (has_post new b)) [
    | inl taken ↦ rw taken v
    | inr free ↦ rw free (record {
      posts_unique =
          rename-IsUnique post_key old new (set_id new) (λ p. refl) b.posts free v.posts_unique;
      tags_unique = v.tags_unique;
      links_unique =
          move-IsUnique old new b.post_tags
            (links_off_new old new b.posts b.post_tags free v.links_posts) v.links_unique;
      links_posts =
          links_follow old new b.posts b.post_tags
            (links_off_new old new b.posts b.post_tags free v.links_posts) v.links_posts;
      links_tags = All-move old new _ b.post_tags v.links_tags;
    })
  ]

pub insert_links-IsValid :
    (id : String) (names : List String) (b : Blog) → IsValid b → IsValid (insert_links id names b).1
unfolding insert_links
insert_links-IsValid id [] b v = v
insert_links-IsValid id (name ∷ names) b v = ground (
  arith,
  insert_links-IsValid id names b v,
  insert_link-IsValid (insert_links id names b).1 (insert_links-IsValid id names b v)
      (record { post_id = id; tag_name = name }),
)

pub assign_tags-IsValid :
    (id : String) (names : List String) (b : Blog) → IsValid b → IsValid (assign_tags id names b).1
unfolding assign_tags
assign_tags-IsValid id names b v = insert_links-IsValid id names _ (record {
  posts_unique = v.posts_unique;
  tags_unique = v.tags_unique;
  links_unique = filter-IsUnique link_key _ b.post_tags v.links_unique;
  links_posts = All-filter _ _ b.post_tags v.links_posts;
  links_tags = All-filter _ _ b.post_tags v.links_tags;
})

-- ===== src/Database/Assign.antt =====
-- The flush of a post's tags succeeds for known tags named once, and moves no other post's rows.
use blog_be.Prelude.{
  String, ◌≡◌, refl, Bool, true, false, not, ◌||◌, List, [], ◌∷◌, ◌++◌, map, ◌==◌, string_eq,
  if◌then◌else◌, filter, any, All, arith,
}
use blog_be.Prelude.Table.{has, IsUnique}
use blog_be.Exec.{ok}
use blog_be.Database.{
  PostTag, Blog, link_key, post_tag_eq, has_post, has_tag, insert_link, insert_links, assign_tags,
}

abbrev pub link_of : String → String → PostTag
link_of id name = record { post_id = id; tag_name = name }

abbrev pub links_of : String → List String → List PostTag
links_of id names = map (link_of id) names

abbrev pub others : String → List PostTag → List PostTag
others id links = filter (λ l. not (l.post_id == id)) links

any_links-append :
    (p : PostTag → Bool) (ls ms : List PostTag) → any p (ls ++ ms) ≡ (any p ls || any p ms)
any_links-append p [] ms = refl
any_links-append p (l ∷ ls) ms = ground (arith, any_links-append p ls ms)

has-links_of :
    (id name : String) (names : List String)
    → has link_key (link_of id name) (links_of id names) ≡ any (λ n. n == name) names
has-links_of id name [] = refl
has-links_of id name (n ∷ names) =
    ground (arith, has-links_of id name names, string_eq.beq_iff id id)

has-others :
    (id name : String) (links : List PostTag)
    → has link_key (link_of id name) (others id links) ≡ false
has-others id name [] = refl
has-others id name (l ∷ links) = ground (arith, has-others id name links)

pub insert_links_lem :
    (id : String) (names : List String) (b : Blog)
    → has_post id b ≡ true
    → All (λ n. has_tag n b ≡ true) names
    → IsUnique (λ (n : String). n) names
    → ((name : String) → has link_key (link_of id name) b.post_tags ≡ false)
    → insert_links id names b ≡ (ok tt, record b { post_tags = links_of id names ++ b.post_tags })
unfolding insert_links insert_link
insert_links_lem id [] b there known once free = refl
insert_links_lem id (n ∷ names) b there known once free = ground (
  arith,
  insert_links_lem id names b there known.1 once.1 free,
  free n,
  has-links_of id n names,
  any_links-append (λ l. link_key l == link_of id n) (links_of id names) b.post_tags,
)

pub assign_tags_lem :
    (id : String) (names : List String) (b : Blog)
    → has_post id b ≡ true
    → All (λ n. has_tag n b ≡ true) names
    → IsUnique (λ (n : String). n) names
    → assign_tags id names b
      ≡ (ok tt, record b { post_tags = links_of id names ++ others id b.post_tags })
unfolding assign_tags
assign_tags_lem id names b there known once =
    insert_links_lem id names (record b { post_tags = others id b.post_tags }) there known once
      (λ name. has-others id name b.post_tags)

has-links_of_post :
    (id j name : String) (names : List String)
    → has link_key (link_of j name) (links_of id names)
      ≡ (if id == j then any (λ n. n == name) names else false)
has-links_of_post id j name [] = ground arith
has-links_of_post id j name (n ∷ names) = ground (arith, has-links_of_post id j name names)

pub has-others_post :
    (id j name : String) (links : List PostTag)
    → has link_key (link_of j name) (others id links)
      ≡ (if j == id then false else has link_key (link_of j name) links)
has-others_post id j name [] = ground arith
has-others_post id j name (l ∷ links) = ground (
  arith,
  has-others_post id j name links,
  string_eq.beq_iff l.post_id id,
  string_eq.beq_iff l.post_id j,
  string_eq.beq_iff j id,
)

-- Afterwards the post has exactly the given tags, and any other post those it had.
pub assigned_links :
    (id j name : String) (names : List String) (links : List PostTag)
    → has link_key (link_of j name) (links_of id names ++ others id links)
      ≡ (if j == id then any (λ n. n == name) names else has link_key (link_of j name) links)
assigned_links id j name names links = ground (
  arith,
  any_links-append (λ l. link_key l == link_of j name) (links_of id names) (others id links),
  has-links_of_post id j name names,
  has-others_post id j name links,
  string_eq.beq_iff id j,
  string_eq.beq_iff j id,
)

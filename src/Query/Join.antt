-- ===== src/Query/Join.antt =====
-- Over unique association rows the join with a tag gives each post at most once.
use blog_be.Prelude.{
  String, ◌≡◌, refl, ◌∙◌, ap, Bool, false, not, ◌&&◌, List, [], ◌∷◌, map, ◌==◌, string_eq,
  if◌then◌else◌, filter, arith,
}
use blog_be.Prelude.Table.{has, IsUnique}
use blog_be.Database.{Post, PostTag, post_key, link_key, post_tag_eq}
use blog_be.Query.{join_tag, unique}

abbrev pub is_tagged : List PostTag → String → Post → Bool
is_tagged links tag p = has link_key (record { post_id = p.id; tag_name = tag }) links

pub links_of_post :
    (tag : String) (p : Post) (links : List PostTag)
    → IsUnique link_key links
    → map (λ _. p) (filter (λ l. l.post_id == p.id && l.tag_name == tag) links)
      ≡ (if is_tagged links tag p then p ∷ [] else [])
links_of_post tag p [] u = refl
links_of_post tag p (l ∷ links) u = ground (
  arith,
  links_of_post tag p links u.1,
  string_eq.beq_iff l.post_id p.id,
  string_eq.beq_iff l.tag_name tag,
)

pub join_tag-eq-filter :
    (tag : String) (links : List PostTag) (posts : List Post)
    → IsUnique link_key links
    → join_tag tag links posts ≡ filter (is_tagged links tag) posts
join_tag-eq-filter tag links [] u = refl
join_tag-eq-filter tag links (p ∷ posts) u =
    ground (arith, links_of_post tag p links u, join_tag-eq-filter tag links posts u)

pub unique_absent :
    (p : Post) (posts : List Post)
    → has post_key p.id posts ≡ false
    → filter (λ q. not (q.id == p.id)) posts ≡ posts
unique_absent p [] h = refl
unique_absent p (q ∷ posts) h = ground (arith, unique_absent p posts)

-- `.unique()` drops nothing from rows with different ids.
pub unique_lem : (posts : List Post) → IsUnique post_key posts → unique posts ≡ posts
unique_lem [] u = refl
unique_lem (p ∷ posts) u =
    ap (λ l. p ∷ filter (λ q. not (q.id == p.id)) l) (unique_lem posts u.1)
    ∙ ap (λ l. p ∷ l) (unique_absent p posts u.0)

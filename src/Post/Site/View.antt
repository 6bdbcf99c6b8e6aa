-- ===== src/Post/Site/View.antt =====
-- The site that a database holds.
use mathlib.Core.Path.{fun_ext}
use blog_be.Prelude.{
  String, ◌≡◌, ◌≢◌, refl, ◌∙◌, sym, Bool, Option, none, some, ◌==◌, string_eq, arith, inl, inr,
  Bool-cases, Option-cases,
}
use blog_be.Prelude.Table.{lookup, has, has-of_none, has_of_lookup}
use blog_be.Database.{Post, Blog, post_key, link_key, post_tag_eq, has_post}
use blog_be.Database.Assign.{link_of}
use blog_be.Post.Site.{Article, Site, put_article, is_some}

-- whether the post has the tag
abbrev pub tagged_in : Blog → String → String → Bool
tagged_in b id name = has link_key (link_of id name) b.post_tags

abbrev pub article_of : Post → (String → Bool) → Article
article_of p tags = record {
  title = p.title;
  excerpt = p.excerpt;
  content = p.content;
  date = p.date;
  read_time = p.read_time;
  kind = p.kind;
  status = p.status;
  featured = p.featured;
  views = p.views;
  created_at = p.created_at;
  tags = tags;
}

abbrev pub shown_as : Option Post → (String → Bool) → Option Article
shown_as none tags = none
shown_as (some p) tags = some (article_of p tags)

unfoldable pub view : Blog → Site
view b id = shown_as (lookup post_key id b.posts) (tagged_in b id)

pub view-some :
    (b : Blog) (id : String) {p : Post}
    → lookup post_key id b.posts ≡ some p
    → view b id ≡ some (article_of p (tagged_in b id))
unfolding view
view-some b id found = rw found refl

pub view-found :
    (b : Blog) (id : String) (tags : String → Bool) {p : Post}
    → lookup post_key id b.posts ≡ some p
    → ((name : String) → tagged_in b id name ≡ tags name)
    → view b id ≡ some (article_of p tags)
view-found b id tags {p = p} found same =
    view-some b id {p = p} found ∙ (λ i. some (article_of p (fun_ext same i)))

pub view-none : (b : Blog) (id : String) → lookup post_key id b.posts ≡ none → view b id ≡ none
unfolding view
view-none b id gone = rw gone refl

-- a post whose row and whose tags are the same
pub view-same :
    (b b' : Blog) (id : String)
    → lookup post_key id b'.posts ≡ lookup post_key id b.posts
    → ((name : String) → tagged_in b' id name ≡ tagged_in b id name)
    → view b' id ≡ view b id
unfolding view
view-same b b' id row tags = λ i. shown_as (row i) (fun_ext tags i)

pub is_some-view : (b : Blog) (id : String) → is_some (view b id) ≡ has_post id b
unfolding view
is_some-view b id = elim (Option-cases (lookup post_key id b.posts)) [
  | inl gone ↦ rw gone (sym (has-of_none post_key id b.posts gone))
  | inr (p, found) ↦ rw found (sym (has_of_lookup post_key id b.posts {r = p} found))
]

-- To show what a site is after a put, at its id and elsewhere.
pub put_article_lem :
    (id : String) (article : Option Article) (s t : Site)
    → t id ≡ article
    → ((j : String) → j ≢ id → t j ≡ s j)
    → t ≡ put_article id article s
put_article_lem id article s t here there = fun_ext (λ j. elim (Bool-cases (j == id)) [
  | inl same ↦ rw (same, (string_eq.beq_iff j id).0 same) here
  | inr other ↦ rw other (there j (λ e. ground (arith, string_eq.beq_iff j id)))
])

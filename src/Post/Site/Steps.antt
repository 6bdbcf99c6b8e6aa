-- ===== src/Post/Site/Steps.antt =====
-- What `create`, `delete` and `publish` do to the site.
use blog_be.Prelude.{
  String, ◌≡◌, refl, ◌∙◌, false, not, none, some, ◌==◌, string_eq, arith, inl, inr, Bool-cases,
  Option-cases, filter, ==_refl, ne-==,
}
use blog_be.Prelude.Table.{
  lookup, update, lookup-eq_none, lookup-update_self, lookup-update_ne, has-delete,
  lookup-delete_ne, delete,
}
use blog_be.Platform.{Platform, slugify}
use blog_be.Error.{Error, slug_conflict, post_not_found}
use blog_be.Exec.{Result, err}
use blog_be.Session.Laws.{settled}
use blog_be.Database.{Post, Blog, IsValid, post_key, has_post, delete_post, update_post}
use blog_be.Database.Assign.{has-others_post}
use blog_be.Post.Schemas.{PostCreate}
use blog_be.Post.Repository.{exists, get_by_id}
use blog_be.Post.Service.{or_slug, require_post, delete_by_id, publish, flushed, publish_on, day_of}
use blog_be.Post.Writes.Create.{created, with_created, create_taken, create_free, created_tags}
use blog_be.Post.Writes.Flush.{timeless-flushed}
use blog_be.Post.Writes.Update.{id-flushed}
use blog_be.Post.Writes.Requests.{create_post, delete_post as delete_write, publish_post, perform}
use blog_be.Post.Site.{Site, put_article, step, new_article, released}
use blog_be.Post.Site.View.{
  view, tagged_in, article_of, view-found, view-some, view-none, view-same, is_some-view,
  put_article_lem,
}

-- A run that ends as the step of the site does.
pub record Refines (b : Blog) (x : Result (Unit {0}) × Blog) (y : Result (Unit {0}) × Site)
    : Type 0 where
  pub result : x.0 ≡ y.0
  pub site : view x.1 ≡ y.1

-- a run that raises, and is rolled back
pub undone : (b : Blog) (e : Error) → Refines b (err e, b) (err e, view b)
undone b e = record { result = refl; site = refl }

module _ (env : Platform) (payload : PostCreate) (b : Blog) (v : IsValid b) where
  abbrev slug : String
  slug = or_slug payload.id (slugify env payload.title)

  created_view :
      has_post slug b ≡ false
      → view (with_created env payload b v)
        ≡ put_article slug (some (new_article env payload)) (view b)
  created_view free =
      put_article_lem slug (some (new_article env payload)) (view b)
        (view (with_created env payload b v))
        (view-found (with_created env payload b v) slug (new_article env payload).tags
          {p = (created env payload b v).row} (ground (arith, string_eq.beq_iff slug slug))
          (λ name. created_tags env payload b v slug name ∙ rw (==_refl slug) refl))
        (λ j ne.
          view-same b (with_created env payload b v) j (ground (arith, string_eq.beq_iff slug j))
            (λ name. created_tags env payload b v j name ∙ rw (ne-== j slug ne) refl))

  pub create-Refines :
      Refines b
        (settled b (perform env (create_post payload) b))
        (step env (create_post payload) (view b))
  create-Refines = elim (Bool-cases (has_post slug b)) [
    | inl taken ↦
        rw (is_some-view b slug, taken, create_taken env payload b v (unfold exists in taken))
          (undone b (slug_conflict slug))
    | inr free ↦
        rw (is_some-view b slug, free, create_free env payload b v free)
          (record { result = refl; site = created_view free })
  ]

module _ (env : Platform) (id : String) (b : Blog) where
  abbrev deleted : Blog
  deleted = record b {
    posts = delete post_key id b.posts;
    post_tags = filter (λ l. not (l.post_id == id)) b.post_tags;
  }

  view-deleted : view deleted ≡ put_article id none (view b)
  view-deleted =
      put_article_lem id none (view b) (view deleted)
        (view-none deleted id (
          lookup-eq_none post_key id (delete post_key id b.posts)
            (has-delete post_key id id b.posts ∙ rw (==_refl id) refl)))
        (λ j ne.
          view-same b deleted j (lookup-delete_ne post_key id j b.posts ne)
            (λ name. has-others_post id j name b.post_tags ∙ rw (ne-== j id ne) refl))

  pub delete-Refines :
      Refines b (settled b (perform env (delete_write id) b)) (step env (delete_write id) (view b))
  unfolding delete_by_id require_post get_by_id delete_post
  delete-Refines = elim (Option-cases (lookup post_key id b.posts)) [
    | inl gone ↦ rw (view-none b id gone, gone) (undone b (post_not_found id))
    | inr (p, found) ↦
        rw (view-some b id {p = p} found, found) (record { result = refl; site = view-deleted })
  ]

  abbrev published_on : Post → Post
  published_on = flushed env (publish_on (day_of env.app_now))

  abbrev with_published : Blog
  with_published = record b { posts = update post_key id published_on b.posts }

  keeps : (p : Post) → (published_on p).id ≡ p.id
  keeps p = id-flushed env (publish_on (day_of env.app_now)) p refl

  published_view :
      (p : Post)
      → lookup post_key id b.posts ≡ some p
      → view with_published
        ≡ put_article id (some (released env (article_of p (tagged_in b id)))) (view b)
  published_view p found =
      put_article_lem id (some (released env (article_of p (tagged_in b id)))) (view b)
        (view with_published)
        (view-some with_published id {p = published_on p}
            (lookup-update_self post_key id published_on keeps b.posts {r = p} found)
          ∙ (λ i. some (
              article_of (timeless-flushed env (publish_on (day_of env.app_now)) p refl refl i)
                (tagged_in b id))))
        (λ j ne.
          view-same b with_published j
            (lookup-update_ne post_key id published_on keeps j b.posts ne) (λ name. refl))

  pub publish-Refines :
      Refines b (settled b (perform env (publish_post id) b)) (step env (publish_post id) (view b))
  unfolding publish require_post get_by_id update_post
  publish-Refines = elim (Option-cases (lookup post_key id b.posts)) [
    | inl gone ↦ rw (view-none b id gone, gone) (undone b (post_not_found id))
    | inr (p, found) ↦
        rw (view-some b id {p = p} found, found)
          (record { result = refl; site = published_view p found })
  ]

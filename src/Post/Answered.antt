-- ===== src/Post/Answered.antt =====
-- How the routes of posts, tags and the search fail: by a 4xx response.
use blog_be.Prelude.{
  ℕ, String, ◌≡◌, refl, ◌∙◌, sym, ap, Bool, true, not, ◌&&◌, string_eq, Option, none, some, List,
  arith,
}
use blog_be.Platform.{Platform}
use blog_be.Pagination.{page_query, page_size_query}
use blog_be.Error.{request_validation_error, post_not_found, tag_not_found}
use blog_be.Exec.{Result, ok, err, bind, pure, raise_if, or_raise}
use blog_be.Exec.Answered.{answered, answered-bind, answered-or_raise, answered-raise_if}
use blog_be.Session.Laws.{settled, request-transactional}
use blog_be.Database.{Blog, IsValid, PostKind, PostStatus}
use blog_be.Tag.{get, get_detail}
use blog_be.Tag.Routes.{list_tags, get_tag}
use blog_be.Post.Schemas.{PostCreate, PostUpdate}
use blog_be.Post.Repository.{get_by_id, get_published}
use blog_be.Post.Service.{
  require_post, require_published, require_nav, create, update_fields, publish, delete_by_id,
}
use blog_be.Post.Routes.{
  check_page, search_query, list_posts, get_post, get_post_nav, list_admin_posts, get_admin_post,
  search_route,
}
use blog_be.Post.Writes.Requests.{
  Write, create_post, patch_post, delete_post, publish_post, perform,
}
use blog_be.Post.Site.{Site, Article, step, on_article}
use blog_be.Post.Site.View.{view}
use blog_be.Post.Site.Refines.{request_refines}

answered-check_page :
    {S : Type 0} (page page_size : ℕ) (s : S) → answered (check_page page page_size s).0 ≡ true
answered-check_page page page_size s =
    answered-raise_if (not (page_query page && page_size_query page_size)) request_validation_error
      s refl

pub answered-settled :
    {D A : Type 0} (d : D) (x : Result A × D) → answered (settled d x).0 ≡ answered x.0
answered-settled d (ok a, d') = refl
answered-settled d (err e, d') = refl

answered-forget :
    {A : Type 0} (x : Result A × Blog) → answered (bind x (λ (_ : A). pure tt)).0 ≡ answered x.0
answered-forget (ok a, b) = refl
answered-forget (err e, b) = refl

module _ (env : Platform) where
  answered-require_published :
      (id : String) (b : Blog) → answered (require_published env id b).0 ≡ true
  unfolding require_published
  answered-require_published id b =
      answered-or_raise (get_published id b) (post_not_found id) b refl

  pub answered-list_posts :
      (page page_size : ℕ) (tag : Option String) (kind : Option PostKind) (b : Blog)
      → answered (list_posts env page page_size tag kind b).0 ≡ true
  unfolding list_posts
  answered-list_posts page page_size tag kind b =
      answered-bind (check_page page page_size b) _ (answered-check_page page page_size b)
        (λ _ b. refl)

  pub answered-list_admin_posts :
      (page page_size : ℕ) (tag : Option String) (kind : Option PostKind)
      (status : Option PostStatus) (b : Blog)
      → answered (list_admin_posts env page page_size tag kind status b).0 ≡ true
  unfolding list_admin_posts
  answered-list_admin_posts page page_size tag kind status b =
      answered-bind (check_page page page_size b) _ (answered-check_page page page_size b)
        (λ _ b. refl)

  pub answered-search_route :
      (ilike : List ℕ → String → Bool) (q : List ℕ) (page page_size : ℕ) (b : Blog)
      → answered (search_route env ilike q page page_size b).0 ≡ true
  unfolding search_route
  answered-search_route ilike q page page_size b =
      answered-bind (raise_if (not (search_query q)) request_validation_error b) _
        (answered-raise_if (not (search_query q)) request_validation_error b refl)
        (λ _ b.
          answered-bind (check_page page page_size b) _ (answered-check_page page page_size b)
            (λ _ b. refl))

  pub answered-get_post : (id : String) (b : Blog) → answered (get_post env id b).0 ≡ true
  unfolding get_post
  answered-get_post id b =
      answered-bind (require_published env id b) _ (answered-require_published id b)
        (λ post b. refl)

  pub answered-get_admin_post :
      (id : String) (b : Blog) → answered (get_admin_post env id b).0 ≡ true
  unfolding get_admin_post require_post
  answered-get_admin_post id b =
      answered-bind (require_post env id b) _
        (answered-or_raise (get_by_id id b) (post_not_found id) b refl) (λ post b. refl)

  pub answered-get_post_nav : (id : String) (b : Blog) → answered (get_post_nav env id b).0 ≡ true
  unfolding get_post_nav require_nav
  answered-get_post_nav id b =
      answered-bind (require_nav env id b) _
        (answered-bind (require_published env id b) _ (answered-require_published id b)
          (λ post b. refl))
        (λ found b. refl)

  pub answered-list_tags : (b : Blog) → answered (list_tags env b).0 ≡ true
  unfolding list_tags
  answered-list_tags b = refl

  pub answered-get_tag : (name : String) (b : Blog) → answered (get_tag env name b).0 ≡ true
  unfolding get_tag get_detail
  answered-get_tag name b =
      answered-bind (get_detail env name b) _
        (answered-bind (or_raise (get name b) (tag_not_found name) b) _
          (answered-or_raise (get name b) (tag_not_found name) b refl) (λ tag b. refl))
        (λ detail b. refl)

  -- the steps of the site fail by 404 or 409
  answered-on_article :
      (id : String) (s : Site) (a : Option Article) (f : Article → Result (Unit {0}) × Site)
      → ((a : Article) → answered (f a).0 ≡ true)
      → answered (on_article env id s a f).0 ≡ true
  answered-on_article id s none f h = refl
  answered-on_article id s (some a) f h = h a

  answered-step : (w : Write) (s : Site) → answered (step env w s).0 ≡ true
  answered-step (create_post payload) s = ground arith
  answered-step (patch_post id payload) s = answered-on_article id s (s id) _ (λ a. ground arith)
  answered-step (delete_post id) s = answered-on_article id s (s id) _ (λ a. refl)
  answered-step (publish_post id) s = answered-on_article id s (s id) _ (λ a. refl)

  pub answered-perform : (w : Write) (b : Blog) → IsValid b → answered (perform env w b).0 ≡ true
  answered-perform w b v =
      sym (answered-settled b (perform env w b))
      ∙ ap (λ x. answered x.0) (sym (request-transactional (perform env w) b))
      ∙ ap answered (request_refines env w b v).0
      ∙ answered-step w (view b)

  -- The service methods that write, on a valid database.
  module _ (b : Blog) (v : IsValid b) where
    pub answered-create : (payload : PostCreate) → answered (create env payload b).0 ≡ true
    answered-create payload =
        sym (answered-forget (create env payload b)) ∙ answered-perform (create_post payload) b v

    pub answered-update_fields :
        (id : String) (payload : PostUpdate) → answered (update_fields env id payload b).0 ≡ true
    answered-update_fields id payload =
        sym (answered-forget (update_fields env id payload b))
        ∙ answered-perform (patch_post id payload) b v

    pub answered-publish : (id : String) → answered (publish env id b).0 ≡ true
    answered-publish id =
        sym (answered-forget (publish env id b)) ∙ answered-perform (publish_post id) b v

    pub answered-delete_by_id : (id : String) → answered (delete_by_id env id b).0 ≡ true
    answered-delete_by_id id = answered-perform (delete_post id) b v

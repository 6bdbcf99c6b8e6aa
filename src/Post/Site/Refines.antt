-- ===== src/Post/Site/Refines.antt =====
-- The write requests on the database do what the site's steps say.
use blog_be.Prelude.{
  String, ◌≡◌, ◌≢◌, refl, ◌∙◌, ap, true, false, not, ◌&&◌, none, some, List, [], ◌∷◌, ◌==◌,
  string_eq, ==_refl, ne-==, arith, inl, inr, Bool-cases, Option-cases,
}
use blog_be.Prelude.Table.{lookup, lookup-eq_none}
use blog_be.Platform.{Platform}
use blog_be.Error.{slug_conflict, post_not_found}
use blog_be.Session.Laws.{settled, request-transactional}
use blog_be.Database.{Post, Blog, IsValid, post_key, has_post}
use blog_be.Post.Schemas.{PostUpdate, Entity}
use blog_be.Post.Repository.{get_by_id}
use blog_be.Post.Service.{update_fields, require_post}
use blog_be.Post.Writes.Rename.{new_id_of}
use blog_be.Post.Writes.Edit.{IsEdited, patch_stores}
use blog_be.Post.Writes.Requests.{
  Write, create_post, patch_post, delete_post, publish_post, perform, request, serve,
  request-IsSafe,
}
use blog_be.Post.Site.{Article, put_article, edited, step, replay}
use blog_be.Post.Site.View.{
  view, tagged_in, article_of, view-found, view-some, view-none, view-same, is_some-view,
  put_article_lem,
}
use blog_be.Post.Site.Conflict.{patch_taken}
use blog_be.Post.Site.Steps.{Refines, undone, create-Refines, delete-Refines, publish-Refines}

module _ (env : Platform) (id : String) (payload : PostUpdate) (b : Blog) where
  abbrev new_id : String
  new_id = new_id_of payload.id id

  abbrev before : Post → Article
  before p = article_of p (tagged_in b id)

  edited_article :
      (p : Post) (e : Entity) (b' : Blog)
      → IsEdited env id payload p b e b'
      → article_of e.row (edited env payload (before p)).tags ≡ edited env payload (before p)
  edited_article p e b' h = λ i. record {
    title = h.title i;
    excerpt = h.excerpt i;
    content = h.content i;
    date = h.date i;
    read_time = h.read_time i;
    kind = h.kind i;
    status = h.status i;
    featured = h.featured i;
    views = h.views i;
    created_at = h.created_at i;
    tags = (edited env payload (before p)).tags;
  }

  elsewhere :
      (p : Post) (e : Entity) (b' : Blog)
      → IsEdited env id payload p b e b'
      → (j : String) → j ≢ new_id
      → view b' j ≡ put_article id none (view b) j
  elsewhere p e b' h j ne = elim (Bool-cases (j == id)) [
    | inl same ↦
        let own = (string_eq.beq_iff j id).0 same in
        rw same (
          view-none b' j (lookup-eq_none post_key j b'.posts (rw own (h.gone (λ k. ne (own ∙ k))))))
    | inr other ↦ rw other (
        view-same b b' j (h.others j (λ k. ground (arith, string_eq.beq_iff j id)) ne)
          (λ name. h.links j name ∙ rw (ne-== j new_id ne, other) refl))
  ]

  view-edited :
      (p : Post) (e : Entity) (b' : Blog)
      → IsEdited env id payload p b e b'
      → view b'
        ≡ put_article new_id (some (edited env payload (before p))) (put_article id none (view b))
  view-edited p e b' h =
      put_article_lem new_id (some (edited env payload (before p))) (put_article id none (view b))
        (view b')
        (view-found b' new_id (edited env payload (before p)).tags {p = e.row} h.stored
            (λ name. h.links new_id name ∙ rw (==_refl new_id) refl)
          ∙ ap some (edited_article p e b' h))
        (elsewhere p e b' h)

  module _ (v : IsValid b) (p : Post) (found : lookup post_key id b.posts ≡ some p) where
    abbrev Goal : Type 0
    Goal =
        Refines b (settled b (perform env (patch_post id payload) b))
          (step env (patch_post id payload) (view b))

    stored :
        (not (new_id == id) && has_post new_id b) ≡ false
        → (new_id ≢ id → has_post new_id b ≡ false)
        → Goal
    stored clear free =
        let (e, b', run, h) = patch_stores env id payload b p v (unfold get_by_id in found) free in
        rw (view-some b id {p = p} found, is_some-view b new_id, clear, run)
          (record { result = refl; site = view-edited p e b' h })

    refused : new_id ≢ id → has_post new_id b ≡ true → Goal
    refused moves taken =
        let (c, run) = patch_taken env id payload b p v found moves taken in
        rw (view-some b id {p = p} found, is_some-view b new_id, taken, ne-== new_id id moves, run)
          (undone b (slug_conflict new_id))

    found-Refines : Goal
    found-Refines = elim (Bool-cases (new_id == id)) [
      | inl same ↦ stored (rw same refl) (λ moves. ground (arith, string_eq.beq_iff new_id id))
      | inr other ↦ elim (Bool-cases (has_post new_id b)) [
        | inl taken ↦ refused (λ k. ground (arith, string_eq.beq_iff new_id id)) taken
        | inr free ↦ stored (rw (other, free) refl) (λ moves. free)
      ]
    ]

  patch-Refines :
      IsValid b
      → Refines b
          (settled b (perform env (patch_post id payload) b))
          (step env (patch_post id payload) (view b))
  unfolding update_fields require_post get_by_id
  patch-Refines v = elim (Option-cases (lookup post_key id b.posts)) [
    | inl gone ↦ rw (view-none b id gone, gone) (undone b (post_not_found id))
    | inr (p, found) ↦ found-Refines v p found
  ]

perform-Refines :
    (env : Platform) (w : Write) (b : Blog)
    → IsValid b
    → Refines b (settled b (perform env w b)) (step env w (view b))
perform-Refines env (create_post payload) b v = create-Refines env payload b v
perform-Refines env (patch_post id payload) b v = patch-Refines env id payload b v
perform-Refines env (delete_post id) b v = delete-Refines env id b
perform-Refines env (publish_post id) b v = publish-Refines env id b

-- A write request on a valid database answers, with the error if there is one, as the step of the
-- request on the site says, and leaves the site that the step gives.
pub request_refines :
    (env : Platform) (w : Write) (b : Blog)
    → IsValid b
    → ((request env w b).0 ≡ (step env w (view b)).0)
      × (view (request env w b).1 ≡ (step env w (view b)).1)
request_refines env w b v =
    let r = perform-Refines env w b v in
    rw (request-transactional (perform env w) b) (r.result, r.site)

-- However many write requests are served from a valid database, the site is the one that their steps
-- give, one after the other.
pub serve_refines :
    (requests : List (Platform × Write)) (b : Blog)
    → IsValid b
    → view (serve requests b) ≡ replay requests (view b)
serve_refines [] b v = refl
serve_refines ((env, w) ∷ rest) b v =
    serve_refines rest (request env w b).1 (request-IsSafe env w b v).valid
    ∙ ap (replay rest) (request_refines env w b v).1

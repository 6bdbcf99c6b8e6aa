-- ===== src/App/Posts.antt =====
-- What one request to the application does to the posts.
use blog_be.Prelude.{
  String, ◌≡◌, refl, ◌∙◌, sym, ap, Bool, true, false, ◌&&◌, Option, none, some, if◌then◌else◌, inl,
  inr, Bool-cases,
}
use blog_be.Platform.{Platform}
use blog_be.Exec.{Result, ok, err, Exec, bind, pure, ◌>>=◌}
use blog_be.Session.{Session, execute, transactional}
use blog_be.Session.Laws.{settled, request-transactional}
use blog_be.Server.Http.{Reply, uncached}
use blog_be.Auth.Keys.{jwks}
use blog_be.Auth.Routes.{refresh, logout_body}
use blog_be.Database.{Blog}
use blog_be.Post.Service.{create, update_fields, delete_by_id, publish}
use blog_be.Post.Writes.Requests.{
  Write, create_post, patch_post, delete_post, publish_post, perform, request,
}
use blog_be.App.Store.{Store, on_accounts, on_blog, in_accounts}
use blog_be.App.Endpoints.{
  Endpoint, Answer, posts_get, post_get, nav_get, tag_get, content_get, search_get, tags_get,
  jwks_get, healthz_get, admin_posts_get, admin_post_get, post_create, post_patch, post_delete,
  post_publish, content_put, login_post, refresh_post, logout_post, key_set, token_pair,
}
use blog_be.App.Handlers.{World, Call, State, settings, in_keys, behind_admin, route}
use blog_be.App.Serve.{fresh_session, handle}
use blog_be.App.Middleware.{passed, counted, handle-passed, handle-stopped}
use blog_be.App.Effects.{
  unused, admin_check, admitted, committed-bind, committed-transactional, transaction-keeps,
  read-keeps, keys_keep_db, behind_admin-eq, behind_admin_committed, get_content_committed,
  put_content_committed,
}

-- the write of the posts that an endpoint asks for
abbrev pub write_of : {C : Type 0} → Endpoint C → Option Write
write_of (post_create payload) = some (create_post payload)
write_of (post_patch post_id payload) = some (patch_post post_id payload)
write_of (post_delete post_id) = some (delete_post post_id)
write_of (post_publish post_id) = some (publish_post post_id)
write_of _ = none

abbrev pub is_ok : {A : Type 0} → Result A → Bool
is_ok (ok a) = true
is_ok (err e) = false

abbrev pub after_write : Platform → Option Write → Bool → Blog → Blog
after_write env none accepted b = b
after_write env (some write) accepted b = if accepted then (request env write b).1 else b

settled-forget :
    {A : Type 0} (b : Blog) (x : Result A × Blog)
    → (settled b (bind x (λ _. pure tt))).1 ≡ (settled b x).1
settled-forget b (ok a, b') = refl
settled-forget b (err e, b') = refl

module _ {C : Type 0} where
  settled-blog :
      {A : Type 0} (d : Store C) (x : Result A × Blog)
      → (settled d (x.0, record d { blog = x.1 })).1.blog ≡ (settled d.blog x).1
  settled-blog d (ok a, b) = refl
  settled-blog d (err e, b) = refl

  -- a transaction on the posts, and the answer made of its result
  transaction-blog :
      {A B : Type 0} (m : Exec Blog A) (f : A → B) (d : Store C)
      → (bind
          (transactional (execute (on_blog m)) (unused d))
          (λ a s. (ok (f a), s))).1.committed.blog
        ≡ (settled d.blog (m d.blog)).1
  transaction-blog m f d =
      ap (λ (x : Store C). x.blog)
        (committed-bind (transactional (execute (on_blog m)) (unused d)) f
          ∙ committed-transactional (on_blog m) d)
      ∙ settled-blog d (m d.blog)

module _ {C K P : Type 0} (w : World C K P) (call : Call C) where
  -- `require_admin` accepts the request
  abbrev pub is_admin : Store C → Bool
  is_admin d = is_ok (admin_check w call d.accounts)

  -- the route of a write, which stands behind `require_admin`
  write-blog :
      {A : Type 0} (m : Exec Blog A) (f : A → Reply (Answer C)) (write : Write) (st : State C K)
      → ((b : Blog) → (settled b (perform call.env write b)).1 ≡ (settled b (m b)).1)
      → (behind_admin w call
          (λ _. transactional (execute (on_blog m)) >>= λ a. pure (f a))
          (fresh_session st)).1.db.committed.blog
        ≡ after_write call.env (some write) (is_admin st.db.committed) st.db.committed.blog
  write-blog m f write st same =
      let r = admin_check w call st.db.committed.accounts in
      ap (λ x. x.1.db.committed.blog) (behind_admin-eq w call st _ r refl) ∙ holds r
    where
      holds :
          (r : Result String)
          → (admitted w call r
              (λ _. transactional (execute (on_blog m)) >>= λ a. pure (f a))
              (fresh_session st)).1.db.committed.blog
            ≡ after_write call.env (some write) (is_ok r) st.db.committed.blog
      holds (ok subject) =
          transaction-blog m f st.db.committed
          ∙ sym (same st.db.committed.blog)
          ∙ sym
              (ap (λ x. x.1) (request-transactional (perform call.env write) st.db.committed.blog))
      holds (err e) = refl

  abbrev Same : Store C → Store C → Type 0
  Same d d' = d'.blog ≡ d.blog

  read-blog :
      {A B : Type 0} (m : Exec (Store C) A) (f : A → B) (d : Store C)
      → (bind (execute m (unused d)) (λ a s. (ok (f a), s))).1.committed.blog ≡ d.blog
  read-blog m f d = read-keeps (Same d) m f d refl

  route-blog :
      (st : State C K) (endpoint : Endpoint C)
      → (route w call endpoint (fresh_session st)).1.db.committed.blog
        ≡ after_write call.env (write_of endpoint) (is_admin st.db.committed) st.db.committed.blog
  unfolding route
  route-blog st (post_create payload) =
      write-blog (create call.env payload) _ (create_post payload) st
        (λ b. settled-forget b (create call.env payload b))
  route-blog st (post_patch post_id payload) =
      write-blog (update_fields call.env post_id payload) _ (patch_post post_id payload) st
        (λ b. settled-forget b (update_fields call.env post_id payload b))
  route-blog st (post_publish post_id) =
      write-blog (publish call.env post_id) _ (publish_post post_id) st
        (λ b. settled-forget b (publish call.env post_id b))
  route-blog st (post_delete post_id) =
      write-blog (delete_by_id call.env post_id) _ (delete_post post_id) st (λ b. refl)
  route-blog st (posts_get page page_size tag kind) = read-blog _ _ st.db.committed
  route-blog st (post_get post_id) = read-blog _ _ st.db.committed
  route-blog st (nav_get post_id) = read-blog _ _ st.db.committed
  route-blog st (tag_get name) = read-blog _ _ st.db.committed
  route-blog st (search_get q page page_size) = read-blog _ _ st.db.committed
  route-blog st tags_get = read-blog _ _ st.db.committed
  route-blog st (content_get key) =
      get_content_committed w call (Same st.db.committed) key st.db.committed refl
  route-blog st healthz_get = refl
  route-blog st jwks_get =
      ap (λ (s : Session (Store C)). s.committed.blog)
        (keys_keep_db (in_keys (jwks w.key_library w.rsa w.config) (fresh_session st))
          (λ keys. uncached {A = Answer C} (key_set keys)))
  route-blog st (admin_posts_get page page_size tag kind status) =
      behind_admin_committed w call (Same st.db.committed) st _ refl
        (λ _. read-blog _ _ st.db.committed)
  route-blog st (admin_post_get post_id) =
      behind_admin_committed w call (Same st.db.committed) st _ refl
        (λ _. read-blog _ _ st.db.committed)
  route-blog st (content_put key content) =
      behind_admin_committed w call (Same st.db.committed) st _ refl (λ _.
        put_content_committed w call (Same st.db.committed) key st.db.committed refl content
          (λ k. refl))
  route-blog st (login_post username password) =
      transaction-keeps (Same st.db.committed) _ _ st.db.committed refl refl
  route-blog st (refresh_post token) =
      ap (λ (d : Store C). d.blog)
        (committed-bind
          (in_accounts (refresh (settings w) w.jwt call.draw token) (unused st.db.committed))
          (λ p. uncached {A = Answer C} (token_pair p)))
  route-blog st logout_post =
      behind_admin_committed w call (Same st.db.committed) st _ refl (λ subject.
        transaction-keeps (Same st.db.committed)
          (on_accounts (logout_body (settings w) w.jwt subject)) _ st.db.committed refl refl)

  -- the write is let through by the middleware and accepted by `require_admin`
  abbrev pub is_accepted : State C K → Bool
  is_accepted st = (passed w call st).0 && is_admin st.db.committed

  -- A request changes the posts and the tags exactly as the service method of its endpoint does in a
  -- transaction of its own, if the middleware lets it pass and `require_admin` accepts it, and not at
  -- all otherwise.
  pub handle-blog :
      (st : State C K)
      → (handle w call st).1.db.committed.blog
        ≡ after_write call.env (write_of call.endpoint) (is_accepted st) st.db.committed.blog
  handle-blog st = elim (Bool-cases (passed w call st).0) [
    | inl pass ↦
        rw (handle-passed w call st pass, pass) (route-blog (counted w call st) call.endpoint)
    | inr stop ↦ rw (handle-stopped w call st stop, stop) (unwritten (write_of call.endpoint))
  ]
    where
      unwritten :
          (write : Option Write)
          → st.db.committed.blog ≡ after_write call.env write false st.db.committed.blog
      unwritten none = refl
      unwritten (some write) = refl

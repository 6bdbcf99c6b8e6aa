-- ===== src/App/Access.antt =====
-- Who may change the database through the application.
use blog_be.Prelude.{
  String, ◌≡◌, refl, none, some, Option-cases, ◌∙◌, ap, string_eq, inl, inr, Bool-cases,
}
use blog_be.Error.{Error}
use blog_be.Exec.{Result, ok, err, Exec, bind}
use blog_be.Session.{Session, execute, leave_begin, begin, in_transaction, transactional}
use blog_be.Database.{Blog}
use blog_be.Server.Http.{Reply, uncached, codes}
use blog_be.Auth.Repository.{Accounts}
use blog_be.Auth.Keys.{jwks}
use blog_be.Content.{validate_key, is_key, read_content}
use blog_be.App.Store.{Store, on_accounts, on_blog, on_contents, put_accounts}
use blog_be.App.Endpoints.{
  Endpoint, Answer, posts_get, post_get, nav_get, tag_get, content_get, search_get, tags_get,
  jwks_get, healthz_get, admin_posts_get, admin_post_get, post_create, post_patch, post_delete,
  post_publish, posts_page, post_detail, post_nav, tag_list, tag_detail, key_set, content_put,
  login_post, refresh_post, logout_post,
}
use blog_be.App.Handlers.{World, Call, State, reading, in_keys, behind_admin, route}
use blog_be.App.Effects.{admin_check, keys_keep_db, behind_admin-eq}
use blog_be.App.Middleware.{passed, counted, handle-passed, handle-stopped}
use blog_be.App.Serve.{fresh_session, handle}

module _ {C : Type 0} where
  -- the posts with their tags, and the contents, that are committed are the same
  abbrev pub SameSite : Session (Store C) → Session (Store C) → Type 0
  SameSite s t =
      (t.committed.blog ≡ s.committed.blog) × (t.committed.contents ≡ s.committed.contents)

  -- code that is followed by other code
  bind-SameSite :
      {A B : Type 0} (s : Session (Store C)) (x : Result A × Session (Store C))
      (f : A → Exec (Session (Store C)) B)
      → SameSite s x.1
      → ((a : A) (t : Session (Store C)) → SameSite t (f a t).1)
      → SameSite s (bind x f).1
  bind-SameSite s (ok a, t) f h k = ((k a t).0 ∙ h.0, (k a t).1 ∙ h.1)
  bind-SameSite s (err e, t) f h k = h

  execute-SameSite :
      {A : Type 0} (m : Exec (Store C) A) (s : Session (Store C)) → SameSite s (execute m s).1
  unfolding execute
  execute-SameSite m s = (refl, refl)

  leave_begin-SameSite :
      {A : Type 0} (r : Result A) (accounts : Accounts) (s : Session (Store C))
      → s.working ≡ none
      → SameSite s
          (leave_begin (r, record s { working = some (put_accounts accounts s.committed) })).1
  leave_begin-SameSite (ok a) accounts s h = (refl, refl)
  leave_begin-SameSite (err e) accounts s h = (refl, refl)

  accounts-SameSite :
      {A : Type 0} (m : Exec Accounts A) (s : Session (Store C))
      → SameSite s (transactional (execute (on_accounts m)) s).1
  unfolding transactional begin execute in_transaction
  accounts-SameSite m s = elim (Option-cases s.working) [
    | inl e ↦ rw e (leave_begin-SameSite (m s.committed.accounts).0 (m s.committed.accounts).1 s e)
    | inr (d, e) ↦ rw e (refl, refl)
  ]

module _ {C K P : Type 0} (w : World C K P) (call : Call C) where
  refused-SameSite :
      (st : State C K) (e : Error) (body : String → Exec (Session (Store C)) (Reply (Answer C)))
      → admin_check w call st.db.committed.accounts ≡ err e
      → SameSite st.db (behind_admin w call body (fresh_session st)).1.db
  refused-SameSite st e body h =
      let run = behind_admin-eq w call st body (err e) h in
      (ap (λ x. x.1.db.committed.blog) run, ap (λ x. x.1.db.committed.contents) run)

  validate_key-SameSite :
      (key : String) (st : State C K) → SameSite st.db (validate_key key (fresh_session st).db).1
  unfolding validate_key
  validate_key-SameSite key st = elim (Bool-cases (is_key (codes key))) [
    | inl good ↦ rw good (refl, refl)
    | inr bad ↦ rw bad (refl, refl)
  ]

  reading-SameSite :
      {A : Type 0} (f : A → Answer C) (m : Exec Blog (Reply A)) (s : Session (Store C))
      → SameSite s (reading w call f m s).1
  reading-SameSite f m s =
      bind-SameSite s (execute (on_blog m) s) _ (execute-SameSite (on_blog m) s)
        (λ a t. (refl, refl))

  route-SameSite :
      (st : State C K) (e : Error) (endpoint : Endpoint C)
      → admin_check w call st.db.committed.accounts ≡ err e
      → SameSite st.db (route w call endpoint (fresh_session st)).1.db
  unfolding route
  route-SameSite st e (posts_get page page_size tag kind) h = reading-SameSite posts_page _ _
  route-SameSite st e (post_get post_id) h = reading-SameSite post_detail _ _
  route-SameSite st e (nav_get post_id) h = reading-SameSite post_nav _ _
  route-SameSite st e (tag_get name) h = reading-SameSite tag_detail _ _
  route-SameSite st e (search_get q page page_size) h = reading-SameSite posts_page _ _
  route-SameSite st e tags_get h = reading-SameSite tag_list _ _
  route-SameSite st e (content_get key) h =
      bind-SameSite st.db (validate_key key (fresh_session st).db) _ (validate_key-SameSite key st)
        (λ _ t.
          bind-SameSite t (execute (on_contents (read_content key)) t) _
            (execute-SameSite (on_contents (read_content key)) t) (λ row u. (refl, refl)))
  route-SameSite st e (login_post username password) h =
      bind-SameSite st.db _ _ (accounts-SameSite _ (fresh_session st).db) (λ a t. (refl, refl))
  route-SameSite st e (refresh_post token) h =
      bind-SameSite st.db _ _ (refl, refl) (λ a t. (refl, refl))
  route-SameSite st e healthz_get h = (refl, refl)
  route-SameSite st e jwks_get h =
      rw
        (keys_keep_db (in_keys (jwks w.key_library w.rsa w.config) (fresh_session st))
          (λ keys. uncached (key_set keys)))
        (refl, refl)
  route-SameSite st e (post_create payload) h = refused-SameSite st e _ h
  route-SameSite st e (post_patch post_id payload) h = refused-SameSite st e _ h
  route-SameSite st e (post_delete post_id) h = refused-SameSite st e _ h
  route-SameSite st e (post_publish post_id) h = refused-SameSite st e _ h
  route-SameSite st e (content_put key content) h = refused-SameSite st e _ h
  route-SameSite st e logout_post h = refused-SameSite st e _ h
  route-SameSite st e (admin_posts_get page page_size tag kind status) h = refused-SameSite st e _ h
  route-SameSite st e (admin_post_get post_id) h = refused-SameSite st e _ h

  -- A request that `require_admin` would refuse leaves the posts, the tags and the contents as they
  -- were, whatever its endpoint and the environment.
  pub handle-SameSite :
      (st : State C K) (e : Error)
      → admin_check w call st.db.committed.accounts ≡ err e
      → SameSite st.db (handle w call st).1.db
  handle-SameSite st e h = elim (Bool-cases (passed w call st).0) [
    | inl pass ↦
        rw (handle-passed w call st pass) (route-SameSite (counted w call st) e call.endpoint h)
    | inr stop ↦ rw (handle-stopped w call st stop) (refl, refl)
  ]

-- ===== src/App/Kept.antt =====
-- What holds of the tables over any history of requests.
use mathlib.Core.Path.{subst}
use blog_be.Prelude.{ℕ, String, ◌≡◌, true, sym, List, [], ◌∷◌, inl, inr, Bool-cases}
use blog_be.Exec.{Result, ok, err, Exec, bind, pure}
use blog_be.Server.Http.{uncached, codes}
use blog_be.Content.{Json, SiteContent, is_key, upsert}
use blog_be.Auth.Repository.{Accounts}
use blog_be.Auth.Stable.{IsStable, login-Keeps, refresh-Kept, logout_body-Keeps}
use blog_be.Auth.Routes.{refresh, logout_body}
use blog_be.Auth.Keys.{jwks}
use blog_be.Database.{Blog}
use blog_be.Post.Schemas.{Entity}
use blog_be.Post.Service.{create, update_fields, delete_by_id, publish}
use blog_be.Platform.{Platform}
use blog_be.Post.Writes.Requests.{
  Write, create_post, patch_post, delete_post, publish_post, perform,
}
use blog_be.App.Store.{Store, on_accounts, on_blog, in_accounts}
use blog_be.App.Endpoints.{
  Endpoint, Answer, posts_get, post_get, nav_get, tag_get, content_get, search_get, tags_get,
  jwks_get, healthz_get, admin_posts_get, admin_post_get, post_create, post_patch, post_delete,
  post_publish, content_put, login_post, refresh_post, logout_post, key_set, token_pair,
}
use blog_be.App.Handlers.{World, Call, State, settings, writing, in_keys, route}
use blog_be.App.Serve.{fresh_session, handle}
use blog_be.App.Middleware.{passed, counted, handle-passed, handle-stopped}
use blog_be.App.Effects.{
  unused, committed-bind, transaction-keeps, read-keeps, keys_keep_db, behind_admin_committed,
  get_content_committed, put_content_committed,
}

-- a property of the posts that each write request keeps, whether it fails or not
abbrev pub IsWriteStable : (Blog → Type 0) → Type 0
IsWriteStable B = (env : Platform) (write : Write) (b : Blog) → B b → B (perform env write b).1

-- a property of the contents that each upsert under a key of the routes keeps
abbrev pub IsPutStable : {C : Type 0} → Json C → (List (SiteContent C) → Type 0) → Type 0
IsPutStable {C = C} json D =
    (now : ℕ) (key : String) (content : C) (rows : List (SiteContent C))
    → is_key (codes key) ≡ true
    → D rows
    → D (upsert json now key content rows).1

-- one property for the tables of each component
pub record Holds {C : Type 0} (A : Accounts → Type 0) (B : Blog → Type 0)
    (D : List (SiteContent C) → Type 0) (d : Store C) : Type 0 where
  pub accounts : A d.accounts
  pub blog : B d.blog
  pub contents : D d.contents

-- the requests that the program answers, one after the other
abbrev pub handle_all : {C K P : Type 0} → World C K P → List (Call C) → State C K → State C K
handle_all w [] st = st
handle_all w (call ∷ calls) st = handle_all w calls (handle w call st).1

module _ {C K P : Type 0} (w : World C K P) (A : Accounts → Type 0) (B : Blog → Type 0)
    (D : List (SiteContent C) → Type 0) (stable : IsStable A) (writes : IsWriteStable B)
    (puts : IsPutStable w.json D) where
  abbrev Kept : Store C → Type 0
  Kept d = Holds A B D d

  blog-Kept : (d : Store C) (b : Blog) → Kept d → B b → Kept (record d { blog = b })
  blog-Kept d b v h = record { accounts = v.accounts; blog = h; contents = v.contents }

  -- a service method whose result `perform` forgets
  written : {R : Type 0} (x : Result R × Blog) → B (bind x (λ (_ : R). pure tt)).1 → B x.1
  written (ok r, b) h = h
  written (err e, b) h = h

  accounts-Kept : (d : Store C) (a : Accounts) → Kept d → A a → Kept (record d { accounts = a })
  accounts-Kept d a v h = record { accounts = h; blog = v.blog; contents = v.contents }

  module _ (call : Call C) where
    writing-Kept :
        (m : Exec Blog Entity) (d : Store C)
        → Kept d
        → B (m d.blog).1
        → Kept (writing w call m (unused d)).1.committed
    writing-Kept m d v h = transaction-keeps Kept (on_blog m) _ d v (blog-Kept d (m d.blog).1 v h)

    route-Kept :
        (st : State C K) (endpoint : Endpoint C)
        → Kept st.db.committed
        → Kept (route w call endpoint (fresh_session st)).1.db.committed
    unfolding route
    route-Kept st (posts_get page page_size tag kind) v = read-keeps Kept _ _ st.db.committed v
    route-Kept st (post_get post_id) v = read-keeps Kept _ _ st.db.committed v
    route-Kept st (nav_get post_id) v = read-keeps Kept _ _ st.db.committed v
    route-Kept st (tag_get name) v = read-keeps Kept _ _ st.db.committed v
    route-Kept st (search_get q page page_size) v = read-keeps Kept _ _ st.db.committed v
    route-Kept st tags_get v = read-keeps Kept _ _ st.db.committed v
    route-Kept st (content_get key) v = get_content_committed w call Kept key st.db.committed v
    route-Kept st healthz_get v = v
    route-Kept st jwks_get v =
        rw
          (keys_keep_db (in_keys (jwks w.key_library w.rsa w.config) (fresh_session st))
            (λ keys. uncached (key_set keys)))
          v
    route-Kept st (admin_posts_get page page_size tag kind status) v =
        behind_admin_committed w call Kept st _ v (λ _. read-keeps Kept _ _ st.db.committed v)
    route-Kept st (admin_post_get post_id) v =
        behind_admin_committed w call Kept st _ v (λ _. read-keeps Kept _ _ st.db.committed v)
    route-Kept st (post_create payload) v = behind_admin_committed w call Kept st _ v (λ _.
        writing-Kept (create call.env payload) st.db.committed v (
          written (create call.env payload st.db.committed.blog)
            (writes call.env (create_post payload) _ v.blog)))
    route-Kept st (post_patch post_id payload) v = behind_admin_committed w call Kept st _ v (λ _.
        writing-Kept (update_fields call.env post_id payload) st.db.committed v (
          written (update_fields call.env post_id payload st.db.committed.blog)
            (writes call.env (patch_post post_id payload) _ v.blog)))
    route-Kept st (post_publish post_id) v = behind_admin_committed w call Kept st _ v (λ _.
        writing-Kept (publish call.env post_id) st.db.committed v (
          written (publish call.env post_id st.db.committed.blog)
            (writes call.env (publish_post post_id) _ v.blog)))
    route-Kept st (post_delete post_id) v = behind_admin_committed w call Kept st _ v (λ _.
        transaction-keeps Kept (on_blog (delete_by_id call.env post_id)) _ st.db.committed v (
          blog-Kept st.db.committed _ v
            (writes call.env (delete_post post_id) st.db.committed.blog v.blog)))
    route-Kept st (content_put key content) v = behind_admin_committed w call Kept st _ v (λ _.
        put_content_committed w call Kept key st.db.committed v content (λ k. record {
          accounts = v.accounts;
          blog = v.blog;
          contents = puts call.env.db_now key content st.db.committed.contents k v.contents;
        }))
    route-Kept st (login_post username password) v = transaction-keeps Kept _ _ st.db.committed v (
        accounts-Kept st.db.committed _ v (
          login-Keeps A stable (settings w) w.jwt call.draw w.bcrypt w.dummy_hash username password
            st.db.committed.accounts v.accounts))
    route-Kept st (refresh_post token) v =
        let pair =
          in_accounts (refresh (settings w) w.jwt call.draw token) (unused st.db.committed) in
        subst Kept (sym (committed-bind pair (λ p. uncached {A = Answer C} (token_pair p)))) (
          accounts-Kept st.db.committed _ v (
            refresh-Kept A stable (settings w) w.jwt call.draw token st.db.committed.accounts
              v.accounts))
    route-Kept st logout_post v = behind_admin_committed w call Kept st _ v (λ subject.
        transaction-keeps Kept (on_accounts (logout_body (settings w) w.jwt subject)) _
          st.db.committed v
          (accounts-Kept st.db.committed _ v (
            logout_body-Keeps A stable (settings w) w.jwt call.draw subject st.db.committed.accounts
              v.accounts)))

    handle-Kept : (st : State C K) → Kept st.db.committed → Kept (handle w call st).1.db.committed
    handle-Kept st v = elim (Bool-cases (passed w call st).0) [
      | inl pass ↦
          rw (handle-passed w call st pass) (route-Kept (counted w call st) call.endpoint v)
      | inr stop ↦ rw (handle-stopped w call st stop) v
    ]

  -- However many requests are answered, the properties hold afterwards if they held before.
  pub handle_all-Kept :
      (calls : List (Call C)) (st : State C K)
      → Kept st.db.committed
      → Kept (handle_all w calls st).db.committed
  handle_all-Kept [] st v = v
  handle_all-Kept (call ∷ calls) st v =
      handle_all-Kept calls (handle w call st).1 (handle-Kept call st v)

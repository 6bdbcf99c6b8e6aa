-- ===== src/App/Effects.antt =====
-- What is committed when a route of the application ends.
use mathlib.Core.Path.{subst}
use blog_be.Prelude.{sym, String, ◌≡◌, refl, ◌∙◌, ap, true, none, inl, inr, Bool-cases}
use blog_be.Exec.{Result, ok, err, Exec, bind, pure, ◌>>=◌, ◌>>◌}
use blog_be.Session.{Session, execute, transactional, sqlalchemy_middleware}
use blog_be.Session.Laws.{settled, request-transactional}
use blog_be.Server.Http.{Reply, cached, uncached, codes}
use blog_be.Auth.Repository.{Accounts}
use blog_be.Auth.Rotation.{opened}
use blog_be.Auth.Token.{require_admin}
use blog_be.Auth.Dependency.{require_admin-opened}
use blog_be.App.Store.{Store, on_contents}
use blog_be.Content.{validate_key, is_key, read_content, upsert}
use blog_be.App.Endpoints.{Answer, content_read}
use blog_be.App.Handlers.{World, Call, State, settings, behind_admin}
use blog_be.App.Serve.{fresh_session}

module _ {C : Type 0} where
  -- a session in which no statement has run
  abbrev pub unused : Store C → Session (Store C)
  unused d = record { committed = d; working = none }

  -- code that is followed by the making of the answer
  pub committed-bind :
      {A B : Type 0} (x : Result A × Session (Store C)) (f : A → B)
      → (bind x (λ a s. (ok (f a), s))).1.committed ≡ x.1.committed
  committed-bind (ok a, s) f = refl
  committed-bind (err e, s) f = refl

  pub committed-execute :
      {A : Type 0} (m : Exec (Store C) A) (s : Session (Store C))
      → (execute m s).1.committed ≡ s.committed
  unfolding execute
  committed-execute m s = refl

  pub committed-transactional :
      {A : Type 0} (m : Exec (Store C) A) (d : Store C)
      → (transactional (execute m) (unused d)).1.committed ≡ (settled d (m d)).1
  unfolding sqlalchemy_middleware
  committed-transactional m d = ap (λ x. x.1) (request-transactional m d)

  -- What holds of the committed tables after a transaction and the answer made of its result: it holds
  -- before, and after the statements.
  module _ (Q : Store C → Type 0) where
    settled-keeps :
        {A : Type 0} (d : Store C) (x : Result A × Store C) → Q d → Q x.1 → Q (settled d x).1
    settled-keeps d (ok a, d') v h = h
    settled-keeps d (err e, d') v h = v

    pub transaction-keeps :
        {A B : Type 0} (m : Exec (Store C) A) (f : A → B) (d : Store C)
        → Q d
        → Q (m d).1
        → Q (bind (transactional (execute m) (unused d)) (λ a s. (ok (f a), s))).1.committed
    transaction-keeps m f d v h =
        subst Q
          (sym
            (committed-bind (transactional (execute m) (unused d)) f ∙ committed-transactional m d))
          (settled-keeps d (m d) v h)

    -- a read, and the answer made of it
    pub read-keeps :
        {A B : Type 0} (m : Exec (Store C) A) (f : A → B) (d : Store C)
        → Q d
        → Q (bind (execute m (unused d)) (λ a s. (ok (f a), s))).1.committed
    read-keeps m f d v =
        subst Q (sym (committed-bind (execute m (unused d)) f ∙ committed-execute m (unused d))) v

-- a chain on the process that does not touch the session
pub keys_keep_db :
    {C K A B : Type 0} (x : Result A × State C K) (f : A → B)
    → (bind x (λ a t. (ok (f a), t))).1.db ≡ x.1.db
keys_keep_db (ok a, t) f = refl
keys_keep_db (err e, t) f = refl

module _ {C K P : Type 0} (w : World C K P) (call : Call C) where
  -- what `require_admin` says to the request
  abbrev pub admin_check : Accounts → Result String
  admin_check d =
      (require_admin (settings w) w.jwt call.draw.app_now call.user_id call.creds (opened d)).0

  -- a route behind `require_admin`, after what it said
  abbrev pub admitted :
      Result String
      → (String → Exec (Session (Store C)) (Reply (Answer C)))
      → State C K
      → Result (Reply (Answer C)) × State C K
  admitted (err e) body st = (err e, st)
  admitted (ok subject) body st = let (r, db) = body subject st.db in (r, record st { db = db })

  checked :
      (st : State C K) (r : Result String)
      → admin_check st.db.committed.accounts ≡ r
      → require_admin
          (settings w)
          w.jwt
          call.draw.app_now
          call.user_id
          call.creds
          (opened st.db.committed.accounts)
        ≡ (r, opened st.db.committed.accounts)
  checked st r h i = (
    h i,
    require_admin-opened (settings w) w.jwt call.draw.app_now call.user_id call.creds
        st.db.committed.accounts i,
  )

  pub behind_admin-eq :
      (st : State C K) (body : String → Exec (Session (Store C)) (Reply (Answer C)))
      (r : Result String)
      → admin_check st.db.committed.accounts ≡ r
      → behind_admin w call body (fresh_session st) ≡ admitted r body (fresh_session st)
  behind_admin-eq st body (ok subject) h = rw (checked st (ok subject) h) refl
  behind_admin-eq st body (err e) h = rw (checked st (err e) h) refl

  -- What holds of the committed tables after a route behind `require_admin`: it holds before, and after
  -- the route itself.
  pub behind_admin_committed :
      (Q : Store C → Type 0) (st : State C K)
      (body : String → Exec (Session (Store C)) (Reply (Answer C)))
      → Q st.db.committed
      → ((subject : String) → Q (body subject (unused st.db.committed)).1.committed)
      → Q (behind_admin w call body (fresh_session st)).1.db.committed
  behind_admin_committed Q st body before after =
      let r = admin_check st.db.committed.accounts in
      subst (λ x. Q x.1.db.committed) (sym (behind_admin-eq st body r refl)) (holds r)
    where
      holds : (r : Result String) → Q (admitted r body (fresh_session st)).1.db.committed
      holds (ok subject) = after subject
      holds (err e) = before

  -- the routes of a content, after `require_admin`
  abbrev get_body : String → Exec (Session (Store C)) (Reply (Answer C))
  get_body key = do
    validate_key key
    row ← execute (on_contents (read_content key))
    pure (cached (content_read row))

  abbrev put_body : String → C → Exec (Session (Store C)) (Reply (Answer C))
  put_body key content = do
    validate_key key
    row ← transactional (execute (on_contents (upsert w.json call.env.db_now key content)))
    pure (uncached (content_read row))

  module _ (Q : Store C → Type 0) (key : String) (d : Store C) (before : Q d) where
    pub get_content_committed : Q (get_body key (unused d)).1.committed
    unfolding validate_key
    get_content_committed = elim (Bool-cases (is_key (codes key))) [
      | inl k ↦ rw k (read-keeps Q (on_contents (read_content key)) _ d before)
      | inr bad ↦ rw bad before
    ]

    pub put_content_committed :
        (content : C)
        → (is_key (codes key) ≡ true
            → Q (record d { contents = (upsert w.json call.env.db_now key content d.contents).1 }))
        → Q (put_body key content (unused d)).1.committed
    unfolding validate_key
    put_content_committed content after = elim (Bool-cases (is_key (codes key))) [
      | inl k ↦ rw k (
          transaction-keeps Q (on_contents (upsert w.json call.env.db_now key content)) _ d before
            (after k))
      | inr bad ↦ rw bad before
    ]

-- ===== src/Post/Writes/Requests.antt =====
-- Any sequence of write requests, each in a transaction of its own.
use blog_be.Prelude.{String, ◌≡◌, refl, List, [], ◌∷◌, arith, inl, inr, Bool-cases}
use blog_be.Platform.{Platform, slugify}
use blog_be.Error.{Error}
use blog_be.Exec.{Result, ok, err, Exec, bind, pure, ◌>>=◌}
use blog_be.Session.{transactional, execute, sqlalchemy_middleware}
use blog_be.Session.Laws.{settled, request-transactional}
use blog_be.Database.{Blog, IsValid, has_post}
use blog_be.Post.Schemas.{PostCreate, PostUpdate}
use blog_be.Post.Repository.{exists}
use blog_be.Post.Service.{create, update_fields, delete_by_id, publish, or_slug}
use blog_be.Post.Writes.Create.{create_taken, create_stores}
use blog_be.Post.Writes.Update.{IsSafe, update_fields-IsSafe, delete_by_id-IsSafe, publish-IsSafe}

-- the requests of api/v1/posts.py that write
pub data Write : Type 0 where
  create_post : PostCreate → Write
  patch_post : String → PostUpdate → Write
  delete_post publish_post : String → Write

abbrev pub forget : {A : Type 0} → Exec Blog A → Exec Blog (Unit {0})
forget m = m >>= λ _. pure tt

module _ (env : Platform) where
  abbrev pub perform : Write → Exec Blog (Unit {0})
  perform (create_post payload) = forget (create env payload)
  perform (patch_post post_id payload) = forget (update_fields env post_id payload)
  perform (delete_post post_id) = delete_by_id env post_id
  perform (publish_post post_id) = forget (publish env post_id)

  -- one request: a fresh session, and the service method under `@Transactional()`
  abbrev pub request : Write → Blog → Result (Unit {0}) × Blog
  request w = sqlalchemy_middleware (transactional (execute (perform w)))

-- the requests one after the other, each with the clocks of its time
abbrev pub serve : List (Platform × Write) → Blog → Blog
serve [] b = b
serve ((env, w) ∷ rest) b = serve rest (request env w b).1

forget-IsSafe : {A : Type 0} (x : Result A × Blog) → IsSafe x → IsSafe (bind x (λ (_ : A). pure tt))
forget-IsSafe (ok a, b) h = record { valid = h.valid; no_violation = ground arith }
forget-IsSafe {A} (err e, b) h = record {
  valid = h.valid;
  no_violation = λ k. h.no_violation (ground arith);
}

pub create-IsSafe :
    (env : Platform) (payload : PostCreate) (b : Blog) → IsValid b → IsSafe (create env payload b)
create-IsSafe env payload b v =
    elim (Bool-cases (has_post (or_slug payload.id (slugify env payload.title)) b)) [
      | inl taken ↦
          rw (create_taken env payload b v (unfold exists in taken))
            (record { valid = v; no_violation = ground arith })
      | inr free ↦
          let (e, b', run, spec) = create_stores env payload b v free in
          rw run (record { valid = spec.valid; no_violation = ground arith })
    ]

pub perform-IsSafe : (env : Platform) (w : Write) (b : Blog) → IsValid b → IsSafe (perform env w b)
perform-IsSafe env (create_post payload) b v =
    forget-IsSafe (create env payload b) (create-IsSafe env payload b v)
perform-IsSafe env (patch_post post_id payload) b v =
    forget-IsSafe (update_fields env post_id payload b)
      (update_fields-IsSafe env post_id payload b v)
perform-IsSafe env (delete_post post_id) b v = delete_by_id-IsSafe post_id env b v
perform-IsSafe env (publish_post post_id) b v =
    forget-IsSafe (publish env post_id b) (publish-IsSafe env post_id b v)

settled-IsSafe :
    (b : Blog) (x : Result (Unit {0}) × Blog) → IsValid b → IsSafe x → IsSafe (settled b x)
settled-IsSafe b (ok a, b') v h = h
settled-IsSafe b (err e, b') v h = record { valid = v; no_violation = h.no_violation }

-- A write request on a valid database leaves a valid database, and does not end in an IntegrityError.
pub request-IsSafe : (env : Platform) (w : Write) (b : Blog) → IsValid b → IsSafe (request env w b)
request-IsSafe env w b v =
    rw (request-transactional (perform env w) b)
      (settled-IsSafe b (perform env w b) v (perform-IsSafe env w b v))

-- However many write requests are served, one after the other and whether they fail or not, the keys
-- stay unique and every association row names a post and a tag that are there.
serve-IsValid :
    (requests : List (Platform × Write)) (b : Blog) → IsValid b → IsValid (serve requests b)
serve-IsValid [] b v = v
serve-IsValid ((env, w) ∷ rest) b v =
    serve-IsValid rest (request env w b).1 (request-IsSafe env w b v).valid

settled_error :
    (b : Blog) (x : Result (Unit {0}) × Blog) {e : Error}
    → (settled b x).0 ≡ err e
    → (settled b x).1 ≡ b
settled_error b (ok a, b') h = absurd (cc)
settled_error b (err e, b') h = refl

-- A write request that fails leaves the database as it was.
request_error :
    (env : Platform) (w : Write) (b : Blog) (e : Error)
    → (request env w b).0 ≡ err e
    → (request env w b).1 ≡ b
request_error env w b e h =
    rw (request-transactional (perform env w) b)
      (settled_error b (perform env w b) (rw (request-transactional (perform env w) b) at h))

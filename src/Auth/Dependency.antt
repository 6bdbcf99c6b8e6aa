-- ===== src/Auth/Dependency.antt =====
-- `require_admin` before a transactional endpoint: it leaves no transaction open, so the endpoint
-- opens its own and commits.
use blog_be.Prelude.{
  ℕ, String, ◌≡◌, refl, ap, Option, none, some, string_eq, nat_eq, arith, inl, inr, Bool-cases,
}
use blog_be.Prelude.Table.{lookup-update_self}
use blog_be.Exec.{Result, ok, err, bind, Exec, ◌>>=◌}
use blog_be.Session.{Session, execute, transactional, in_transaction, sqlalchemy_middleware}
use blog_be.Session.Laws.{settled, request-transactional}
use blog_be.Auth.Repository.{
  Admin, Accounts, admin_key, bump_version, get_admin, increment_token_version,
  revoke_refresh_tokens,
}
use blog_be.Auth.Token.{
  AuthConfig, Jwt, Payload, TokenType, access, check_subject, check_type, check_version,
  finally_rollback, verify_subject, decode_token, verify_bearer, require_admin,
}
use blog_be.Auth.Routes.{Draw, logout, logout_body, logout_request}
use blog_be.Auth.Rotation.{opened, killed}

module _ (cfg : AuthConfig) (jwt : Jwt) where
  finally-opened :
      (m : Exec Accounts (Unit {0})) (d : Accounts)
      → (finally_rollback cfg jwt (execute m) (opened d)).1 ≡ opened d
  unfolding execute in_transaction
  finally-opened m d = refl

  -- a chain of a check and what follows it
  bind-opened :
      {A B : Type 0} (r : Result A) (f : A → Exec (Session Accounts) B) (d : Accounts)
      → ((a : A) → (f a (opened d)).1 ≡ opened d)
      → (bind (r, opened d) f).1 ≡ opened d
  bind-opened (ok a) f d h = h a
  bind-opened (err e) f d h = refl

  bind_closed :
      {A B : Type 0} (x : Result A × Session Accounts) (b : B) (d : Accounts)
      → x.1 ≡ opened d
      → (bind x (λ _ s. (ok b, s))).1 ≡ opened d
  bind_closed (ok a, s) b d h = h
  bind_closed (err e, s) b d h = h

  verify_subject-opened :
      (payload : Payload) (expected : TokenType) (d : Accounts)
      → (verify_subject cfg jwt payload expected (opened d)).1 ≡ opened d
  unfolding verify_subject
  verify_subject-opened payload expected d =
      bind-opened (check_subject cfg jwt payload.sub) _ d λ subject.
        bind-opened (check_type cfg jwt payload.typ expected) _ d λ _.
          bind-opened (check_version cfg jwt payload.tv) _ d
            λ version. bind_closed _ subject d (finally-opened _ d)

  verify_bearer-opened :
      (now : ℕ) (creds : Option String) (d : Accounts)
      → (verify_bearer cfg jwt now creds (opened d)).1 ≡ opened d
  unfolding verify_bearer
  verify_bearer-opened now none d = refl
  verify_bearer-opened now (some token) d =
      bind-opened (decode_token cfg jwt now token) _ d
        λ payload. verify_subject-opened payload access d

  pub require_admin-opened :
      (now : ℕ) (user_id creds : Option String) (d : Accounts)
      → (require_admin cfg jwt now user_id creds (opened d)).1 ≡ opened d
  unfolding require_admin
  require_admin-opened now user_id creds d = elim (Bool-cases cfg.is_prod) [
    | inl prod ↦ simp prod refl
    | inr local ↦ simp local (verify_bearer-opened now creds d)
  ]

  -- what a transactional endpoint does with the result of its check
  abbrev pub guarded :
      {A : Type 0} → Result String → (String → Exec Accounts A) → Accounts → Result A × Accounts
  guarded (err e) body d = (err e, d)
  guarded (ok subject) body d = settled d (body subject d)

  guarded_from :
      {A : Type 0} (body : String → Exec Accounts A) (d : Accounts)
      (x : Result String × Session Accounts)
      → x.1 ≡ opened d
      → sqlalchemy_middleware (λ _. bind x (λ subject. transactional (execute (body subject)))) d
        ≡ guarded x.0 body d
  unfolding sqlalchemy_middleware
  guarded_from body d (ok subject, s) h = rw h (request-transactional (body subject) d)
  guarded_from body d (err e, s) h = ap (λ s'. (err e, s'.committed)) h

  -- A transactional endpoint behind `require_admin` either is refused with the error of the check, and
  -- nothing changes; or it commits what its body does, or undoes it if the body raises.
  pub endpoint_commits :
      {A : Type 0} (now : ℕ) (user_id creds : Option String) (body : String → Exec Accounts A)
      (d : Accounts)
      → sqlalchemy_middleware
          (require_admin cfg jwt now user_id creds >>= λ subject.
            transactional (execute (body subject)))
          d
        ≡ guarded (require_admin cfg jwt now user_id creds (opened d)).0 body d
  unfolding sqlalchemy_middleware
  endpoint_commits now user_id creds body d =
      guarded_from body d (require_admin cfg jwt now user_id creds (opened d))
        (require_admin-opened now user_id creds d)

  pub logout_request_lem :
      (draw : Draw) (user_id creds : Option String) (d : Accounts)
      → logout_request cfg jwt draw user_id creds d
        ≡ guarded
            (require_admin cfg jwt draw.app_now user_id creds (opened d)).0
            (logout_body cfg jwt)
            d
  unfolding logout_request logout
  logout_request_lem draw user_id creds d =
      endpoint_commits draw.app_now user_id creds (logout_body cfg jwt) d

  -- `logout` of a known admin bumps the version and revokes the rows.
  pub logout_body_lem :
      (subject : String) (d : Accounts) {admin : Admin}
      → get_admin subject d ≡ some admin
      → logout_body cfg jwt subject d ≡ (ok tt, killed subject d)
  unfolding logout_body increment_token_version revoke_refresh_tokens get_admin
  logout_body_lem subject d {admin} known = ground (
    arith,
    lookup-update_self admin_key subject bump_version (λ a. refl) d.admins {r = admin} known,
  )

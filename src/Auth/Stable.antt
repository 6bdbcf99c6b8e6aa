-- ===== src/Auth/Stable.antt =====
-- What login, refresh and logout keep of the accounts.
use blog_be.Prelude.{
  ℕ, String, ◌≡◌, refl, Bool, true, false, not, ◌||◌, Option, none, some, ◌==◌, string_eq,
  if◌then◌else◌, inl, inr, Bool-cases,
}
use blog_be.Error.{unauthorized, assertion_error}
use blog_be.Exec.{Result, ok, err, Exec, bind, lift, raise_if}
use blog_be.Exec.Keeps.{Keeps, bind-Keeps, or_raise-Keeps, raise_if-Keeps}
use blog_be.Auth.Repository.{
  Accounts, RefreshToken, rotated, refresh_status_eq, get_admin, insert_admin, upsert_admin,
  increment_token_version, record_refresh_token, get_refresh_token, claim_refresh_token_rotation,
  revoke_refresh_tokens,
}
use blog_be.Session.{Session, leave_begin, begin, execute, in_transaction}
use blog_be.Auth.Rotation.{opened}
use blog_be.Auth.Password.{Bcrypt, verify_password}
use blog_be.Auth.Token.{
  AuthConfig, Jwt, refresh as refresh_type, check_current, check_subject, check_type, check_version,
  check_jti, decode_token, verify_refresh_token, issue_refresh_token,
}
use blog_be.Auth.Routes.{
  Draw, start_family, login, on_unclaimed, on_claim, rotate, logout_body, refresh, finish_refresh,
}

-- a property of the accounts that each statement on the two tables keeps
pub record IsStable (P : Accounts → Type 0) : Type 0 where
  pub insert :
      (now : ℕ) (username password_hash : String) (d : Accounts)
      → P d
      → P (insert_admin now username password_hash d)
  pub increment : (username : String) → Keeps P (increment_token_version username)
  pub start :
      (now : ℕ) (jti subject : String) (expires_at : ℕ)
      → Keeps P (record_refresh_token now jti subject expires_at)
  pub claim : (now : ℕ) (jti : String) → Keeps P (claim_refresh_token_rotation now jti)
  pub revoke : (subject : String) → Keeps P (revoke_refresh_tokens subject)

module _ (P : Accounts → Type 0) (stable : IsStable P) (cfg : AuthConfig) (jwt : Jwt)
    (draw : Draw) where
  upsert_admin-Keeps :
      (now : ℕ) (username password_hash : String)
      → Keeps P (upsert_admin now username password_hash)
  unfolding upsert_admin
  upsert_admin-Keeps now username password_hash d v =
      or_raise-Keeps P _ assertion_error _ (stable.insert now username password_hash d v)

  start_family-Keeps :
      (subject : String) (version : ℕ) → Keeps P (start_family cfg jwt draw subject version)
  unfolding start_family
  start_family-Keeps subject version d v =
      bind-Keeps P
        (lift (issue_refresh_token cfg jwt subject version draw.app_now draw.refresh_jti) d) _ v
        (λ issued s w. bind-Keeps P _ _ (stable.start draw.db_now _ subject _ s w) (λ _ t x. x))

  pub login-Keeps :
      (lib : Bcrypt) (dummy_hash username password : String)
      → Keeps P (login cfg jwt lib dummy_hash draw username password)
  unfolding login
  login-Keeps lib dummy_hash username password d v =
      let username_ok = username == cfg.admin_username in
      let expected_hash = if username_ok then cfg.admin_password_hash else dummy_hash in
      let wrong = not (verify_password lib password expected_hash) || not username_ok in
      bind-Keeps P (raise_if wrong (unauthorized "Invalid credentials") d) _
        (raise_if-Keeps P wrong (unauthorized "Invalid credentials") d v)
        (λ _ s w.
          bind-Keeps P (upsert_admin draw.db_now cfg.admin_username cfg.admin_password_hash s) _
            (upsert_admin-Keeps draw.db_now cfg.admin_username cfg.admin_password_hash s w)
            (λ admin t x.
              bind-Keeps P (start_family cfg jwt draw cfg.admin_username admin.token_version t) _
                (start_family-Keeps cfg.admin_username admin.token_version t x) (λ token u y. y)))

  on_unclaimed-Keeps :
      (subject : String) (row : Option RefreshToken) → Keeps P (on_unclaimed cfg jwt subject row)
  on_unclaimed-Keeps subject none d v = v
  on_unclaimed-Keeps subject (some row) d v = elim (Bool-cases (row.status == rotated)) [
    | inl reuse ↦ rw reuse (
        bind-Keeps P (increment_token_version subject d) _ (stable.increment subject d v) (λ _ s w.
          bind-Keeps P (revoke_refresh_tokens subject s) _ (stable.revoke subject s w)
            (λ _ t x. x)))
    | inr other ↦ rw other v
  ]

  on_claim-Keeps :
      (subject : String) (tv : ℕ) (jti : String) (claimed : Bool)
      → Keeps P (on_claim cfg jwt draw subject tv jti claimed)
  on_claim-Keeps subject tv jti true d v =
      bind-Keeps P (start_family cfg jwt draw subject tv d) _ (start_family-Keeps subject tv d v)
        (λ token s w. w)
  on_claim-Keeps subject tv jti false d v =
      bind-Keeps P (on_unclaimed cfg jwt subject (get_refresh_token jti d) d) _
        (on_unclaimed-Keeps subject (get_refresh_token jti d) d v) (λ _ s w. w)

  pub rotate-Keeps :
      (subject : String) (tv : ℕ) (jti : String) → Keeps P (rotate cfg jwt draw subject tv jti)
  unfolding rotate
  rotate-Keeps subject tv jti d v =
      bind-Keeps P (check_current cfg jwt tv (get_admin subject d), d) _ v
        (λ _ s w.
          bind-Keeps P (claim_refresh_token_rotation draw.db_now jti s) _
            (stable.claim draw.db_now jti s w)
            (λ claimed t x. on_claim-Keeps subject tv jti claimed t x))

  pub logout_body-Keeps : (subject : String) → Keeps P (logout_body cfg jwt subject)
  unfolding logout_body
  logout_body-Keeps subject d v =
      bind-Keeps P (increment_token_version subject d) _ (stable.increment subject d v) (λ _ s w.
        bind-Keeps P (revoke_refresh_tokens subject s) _ (stable.revoke subject s w) (λ _ t x. x))

  -- the commit or the rollback at the end of a block
  leave_begin-Kept :
      {A : Type 0} (x : Result A × Accounts) (d : Accounts)
      → P d
      → P x.1
      → P (leave_begin (x.0, record (opened d) { working = some x.1 })).1.committed
  leave_begin-Kept (ok a, d') d v h = h
  leave_begin-Kept (err e, d') d v h = v

  then_lift :
      {A B : Type 0} (x : Result A × Session Accounts) (f : A → Result B)
      → P x.1.committed
      → P (bind x (λ a s. (f a, s))).1.committed
  then_lift (ok a, s) f h = h
  then_lift (err e, s) f h = h

  verify-opened :
      (token : String) (d : Accounts)
      → (verify_refresh_token cfg jwt draw.app_now token (opened d)).1 ≡ opened d
  unfolding verify_refresh_token
  verify-opened token d =
      bind-Keeps (λ s. s ≡ opened d) (decode_token cfg jwt draw.app_now token, opened d) _ refl
        (λ payload s h.
          bind-Keeps (λ s. s ≡ opened d) (check_subject cfg jwt payload.sub, s) _ h
            (λ subject t k.
              bind-Keeps (λ s. s ≡ opened d) (check_type cfg jwt payload.typ refresh_type, t) _ k
                (λ _ u l.
                  bind-Keeps (λ s. s ≡ opened d) (check_version cfg jwt payload.tv, u) _ l
                    (λ tv y m.
                      bind-Keeps (λ s. s ≡ opened d) (check_jti cfg jwt payload.jti, y) _ m
                        (λ jti z n. n)))))

  after_claims :
      {A B : Type 0} (x : Result A × Session Accounts) (f : A → Exec (Session Accounts) B)
      (d : Accounts)
      → x.1 ≡ opened d
      → P d
      → ((a : A) → P (f a (opened d)).1.committed)
      → P (bind x f).1.committed
  after_claims (ok a, s) f d e v k = rw e (k a)
  after_claims (err c, s) f d e v k = rw e v

  pub refresh-Kept :
      (token : String) (d : Accounts) → P d → P (refresh cfg jwt draw token (opened d)).1.committed
  unfolding refresh begin execute in_transaction
  refresh-Kept token d v =
      after_claims (verify_refresh_token cfg jwt draw.app_now token (opened d)) _ d
        (verify-opened token d) v
        (λ claims.
          let (subject, tv, jti) = claims in
          let x = rotate cfg jwt draw subject tv jti d in
          then_lift (leave_begin (x.0, record (opened d) { working = some x.1 }))
            (finish_refresh cfg jwt draw subject tv)
            (leave_begin-Kept x d v (rotate-Keeps subject tv jti d v)))

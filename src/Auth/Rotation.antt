-- ===== src/Auth/Rotation.antt =====
-- What `refresh` and `logout` do to the token family of a subject.
use blog_be.Prelude.{
  ℕ, String, ◌≡◌, ◌≢◌, refl, true, false, Option, none, some, ◌∷◌, string_eq, nat_eq, arith,
}
use blog_be.Prelude.Table.{has, update, lookup-update_self, has-update}
use blog_be.Error.{unauthorized}
use blog_be.Exec.{Result, ok, err, bind, lift}
use blog_be.Session.{Session, begin, execute, leave_begin, sqlalchemy_middleware}
use blog_be.Auth.Repository.{
  Admin, Accounts, RefreshToken, active, rotated, refresh_status_eq, admin_key, token_key,
  get_admin, get_refresh_token, is_claimable, mark, bump_version, revoke_rows,
  increment_token_version, revoke_refresh_tokens, claim_refresh_token_rotation,
  record_refresh_token,
}
use blog_be.Auth.Token.{
  AuthConfig, Jwt, Payload, text, int, decode_token, verify_refresh_token, issue,
  issue_access_token, issue_refresh_token, access_token_of, refresh_token_of,
}
use blog_be.Auth.Routes.{
  Draw, TokenPair, refresh, finish_refresh, refresh_request, rotate, pair_of, refresh_expires_at,
  start_family,
}

-- The state after the family of a subject was killed.
abbrev pub killed : String → Accounts → Accounts
killed subject d = record {
  admins = update admin_key subject bump_version d.admins;
  refresh_tokens = revoke_rows subject d.refresh_tokens;
}

-- the session that the middleware gives a request
abbrev pub opened : Accounts → Session Accounts
opened d = record { committed = d; working = none }

-- The checks on the claims of a refresh token that the admin presents: the program's key loads, and the
-- token decodes with it.
pub record IsRefreshOf (cfg : AuthConfig) (jwt : Jwt) (now : ℕ) (token : String) (tv : ℕ)
    (jti : String) : Type 0 where
  pub payload : Payload
  pub key : String
  pub loads : cfg.signing_key ≡ ok key
  pub decoded : jwt.decode key now cfg.jwt_issuer cfg.jwt_audience token ≡ some payload
  pub sub : payload.sub ≡ some (text cfg.admin_username)
  pub typ : payload.typ ≡ some (text "refresh")
  pub version : payload.tv ≡ some (int tv)
  pub id : payload.jti ≡ some (text jti)

module _ (cfg : AuthConfig) (jwt : Jwt) (draw : Draw) (token : String) where
  -- A token with the claims of a refresh token of the admin passes the checks.
  verified :
      {S : Type 0} (tv : ℕ) (jti : String) (s : S)
      → IsRefreshOf cfg jwt draw.app_now token tv jti
      → verify_refresh_token cfg jwt draw.app_now token s ≡ (ok (cfg.admin_username, tv, jti), s)
  unfolding verify_refresh_token decode_token
  verified tv jti s c = ground (arith, string_eq.beq_iff cfg.admin_username cfg.admin_username)

  -- How `refresh` ends, by what its transaction returned.
  abbrev pub outcome :
      String → ℕ → Accounts → Result (Option String) × Accounts → Result TokenPair × Accounts
  outcome subject tv d (ok none, d') = (err (unauthorized "Token reuse detected"), d')
  outcome subject tv d (ok (some new_refresh), d') =
      (pair_of cfg jwt draw subject tv new_refresh, d')
  outcome subject tv d (err e, d') = (err e, d)

  begin_outcome :
      (subject : String) (tv : ℕ) (d : Accounts) (x : Result (Option String) × Accounts)
      → let (r, s) =
          bind
            (leave_begin (x.0, record (opened d) { working = some x.1 }))
            (λ new_refresh. lift (finish_refresh cfg jwt draw subject tv new_refresh)) in
        (let y : Result TokenPair × Accounts = (r, s.committed) in y) ≡ outcome subject tv d x
  begin_outcome subject tv d (ok none, d') = refl
  begin_outcome subject tv d (ok (some t), d') = refl
  begin_outcome subject tv d (err e, d') = refl

  pub refresh_request_lem :
      (tv : ℕ) (jti : String) (d : Accounts)
      → IsRefreshOf cfg jwt draw.app_now token tv jti
      → refresh_request cfg jwt draw token d
        ≡ outcome cfg.admin_username tv d (rotate cfg jwt draw cfg.admin_username tv jti d)
  unfolding refresh_request refresh sqlalchemy_middleware begin execute
  refresh_request_lem tv jti d c =
      rw (verified tv jti (opened d) c)
        (begin_outcome cfg.admin_username tv d (rotate cfg jwt draw cfg.admin_username tv jti d))

module _ (cfg : AuthConfig) (jwt : Jwt) (draw : Draw) (subject : String) (tv : ℕ)
    (jti : String) where
  pub rotate_stale :
      (d : Accounts) {admin : Admin}
      → get_admin subject d ≡ some admin
      → admin.token_version ≢ tv
      → rotate cfg jwt draw subject tv jti d ≡ (err (unauthorized "Token has been revoked"), d)
  unfolding rotate
  rotate_stale d {admin} known stale = ground (arith, nat_eq.beq_iff admin.token_version tv)

  pub rotate_reuse :
      (d : Accounts) {admin : Admin} {row : RefreshToken}
      → get_admin subject d ≡ some admin
      → admin.token_version ≡ tv
      → get_refresh_token jti d ≡ some row
      → row.status ≡ rotated
      → rotate cfg jwt draw subject tv jti d ≡ (ok none, killed subject d)
  unfolding rotate get_admin get_refresh_token claim_refresh_token_rotation increment_token_version
      revoke_refresh_tokens
  rotate_reuse d {admin} {row} known current found spent = ground (
    arith,
    nat_eq.beq_iff admin.token_version tv,
    lookup-update_self admin_key subject bump_version (λ a. refl) d.admins {r = admin} known,
  )

  -- The state after the row of `jti` was exchanged for a new one.
  abbrev pub exchanged : Accounts → Accounts
  exchanged d = record d {
    refresh_tokens =
        record {
          jti = draw.refresh_jti;
          subject = subject;
          status = active;
          created_at = draw.db_now;
          expires_at = refresh_expires_at cfg jwt draw.app_now;
        }
        ∷ update token_key jti (mark rotated) d.refresh_tokens;
  }

  abbrev pub new_refresh_token : String → String
  new_refresh_token key = refresh_token_of cfg jwt key subject tv draw.app_now draw.refresh_jti

  -- the pair that is issued with a key
  abbrev pub signed_pair : String → String → TokenPair
  signed_pair key refresh_token = record {
    access_token = access_token_of cfg jwt key subject tv draw.app_now draw.access_jti;
    refresh_token = refresh_token;
  }

  pub pair_of_lem :
      (key refresh_token : String)
      → cfg.signing_key ≡ ok key
      → pair_of cfg jwt draw subject tv refresh_token ≡ ok (signed_pair key refresh_token)
  unfolding issue_access_token issue
  pair_of_lem key refresh_token loads = rw loads refl

  pub rotate_wins :
      (d : Accounts) {admin : Admin} {row : RefreshToken}
      → get_admin subject d ≡ some admin
      → admin.token_version ≡ tv
      → get_refresh_token jti d ≡ some row
      → is_claimable draw.db_now row ≡ true
      → has token_key draw.refresh_jti d.refresh_tokens ≡ false
      → (key : String) → cfg.signing_key ≡ ok key
      → rotate cfg jwt draw subject tv jti d ≡ (ok (some (new_refresh_token key)), exchanged d)
  unfolding rotate get_admin get_refresh_token claim_refresh_token_rotation start_family
      record_refresh_token issue_refresh_token issue
  rotate_wins d {admin} {row} known current found fit fresh key loads = ground (
    arith,
    nat_eq.beq_iff admin.token_version tv,
    has-update token_key jti (mark rotated) (λ t. refl) draw.refresh_jti d.refresh_tokens,
  )

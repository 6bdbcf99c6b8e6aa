-- ===== src/Auth/Replay.antt =====
-- Rotation and reuse detection of refresh tokens, request by request.
use blog_be.Prelude.{
  ℕ, ◌≤◌, String, ◌≡◌, ◌≢◌, refl, ◌∙◌, ap, sym, true, false, Option, some, ◌==◌, string_eq, nat_eq,
  arith, inl, inr, Bool-cases, ==_sound,
}
use blog_be.Prelude.Table.{has, lookup-update_self, has_of_lookup}
use blog_be.Error.{unauthorized}
use blog_be.Exec.{ok, err}
use blog_be.Auth.Repository.{
  Admin, Accounts, RefreshToken, rotated, admin_key, token_key, get_admin, get_refresh_token,
  is_claimable, mark, bump_version,
}
use blog_be.Auth.Token.{AuthConfig, Jwt, require_admin}
use blog_be.Auth.Routes.{Draw, refresh_request, logout_request}
use blog_be.Auth.Rotation.{
  IsRefreshOf, killed, exchanged, new_refresh_token, signed_pair, pair_of_lem, refresh_request_lem,
  rotate_wins, rotate_reuse, rotate_stale, outcome, opened,
}
use blog_be.Auth.Dependency.{logout_request_lem, logout_body_lem}

-- What a valid exchange of `token` needs: its claims, the admin at its version, and its row in the
-- table, active and not expired.
pub record IsExchangeable (cfg : AuthConfig) (jwt : Jwt) (draw : Draw) (token : String) (tv : ℕ)
    (jti : String) (d : Accounts) : Type 0 where
  pub claims : IsRefreshOf cfg jwt draw.app_now token tv jti
  pub admin : Admin
  pub known : get_admin cfg.admin_username d ≡ some admin
  pub current : admin.token_version ≡ tv
  pub row : RefreshToken
  pub found : get_refresh_token jti d ≡ some row
  pub claimable : is_claimable draw.db_now row ≡ true
  pub fresh : has token_key draw.refresh_jti d.refresh_tokens ≡ false

module _ (cfg : AuthConfig) (jwt : Jwt) (draw : Draw) (token : String) (tv : ℕ) (jti : String)
    (d : Accounts) where
  abbrev pub user : String
  user = cfg.admin_username

  -- The row of an exchangeable token becomes `rotated`, a new active row is committed with the id of
  -- the new refresh token, and the response carries that token.
  pub refresh_rotates :
      (x : IsExchangeable cfg jwt draw token tv jti d)
      → refresh_request cfg jwt draw token d ≡ (
        ok (
            signed_pair cfg jwt draw user tv jti x.claims.key
              (new_refresh_token cfg jwt draw user tv jti x.claims.key)),
        exchanged cfg jwt draw user tv jti d,
      )
  refresh_rotates x =
      refresh_request_lem cfg jwt draw token tv jti d x.claims
      ∙ ap (outcome cfg jwt draw token user tv d) (
          rotate_wins cfg jwt draw user tv jti d {admin = x.admin} {row = x.row} x.known x.current
            x.found x.claimable x.fresh x.claims.key x.claims.loads)
      ∙ ap (λ r. (r, exchanged cfg jwt draw user tv jti d))
          (pair_of_lem cfg jwt draw user tv jti x.claims.key
            (new_refresh_token cfg jwt draw user tv jti x.claims.key) x.claims.loads)

  -- A rotated token that is presented again, with the admin still at its version, is answered by 401,
  -- and what is committed is the kill of the family.
  pub refresh_reuse :
      {admin : Admin} {row : RefreshToken}
      → IsRefreshOf cfg jwt draw.app_now token tv jti
      → get_admin user d ≡ some admin
      → admin.token_version ≡ tv
      → get_refresh_token jti d ≡ some row
      → row.status ≡ rotated
      → refresh_request cfg jwt draw token d
        ≡ (err (unauthorized "Token reuse detected"), killed user d)
  refresh_reuse {admin} {row} claims known current found spent =
      refresh_request_lem cfg jwt draw token tv jti d claims
      ∙ ap (outcome cfg jwt draw token user tv d) (
          rotate_reuse cfg jwt draw user tv jti d {admin = admin} {row = row} known current found
            spent)

  -- With another version of the admin a refresh token is refused and nothing changes.
  pub refresh_stale :
      {admin : Admin}
      → IsRefreshOf cfg jwt draw.app_now token tv jti
      → get_admin user d ≡ some admin
      → admin.token_version ≢ tv
      → refresh_request cfg jwt draw token d ≡ (err (unauthorized "Token has been revoked"), d)
  refresh_stale {admin} claims known stale =
      refresh_request_lem cfg jwt draw token tv jti d claims
      ∙ ap (outcome cfg jwt draw token user tv d)
          (rotate_stale cfg jwt draw user tv jti d {admin = admin} known stale)

exchanged_row :
    (cfg : AuthConfig) (jwt : Jwt) (draw : Draw) (token : String) (tv : ℕ) (jti : String)
    (d : Accounts) (x : IsExchangeable cfg jwt draw token tv jti d)
    → get_refresh_token jti (exchanged cfg jwt draw cfg.admin_username tv jti d)
      ≡ some (mark rotated x.row)
unfolding get_refresh_token
exchanged_row cfg jwt draw token tv jti d x = elim (Bool-cases (draw.refresh_jti == jti)) [
  | inl same ↦ absurd (
      let taken : has token_key draw.refresh_jti d.refresh_tokens ≡ true =
        ap (λ (k : String). has token_key k d.refresh_tokens) (==_sound draw.refresh_jti jti same)
        ∙ has_of_lookup token_key jti d.refresh_tokens {r = x.row} x.found in
      let clash : true ≡ false = sym taken ∙ x.fresh in cc)
  | inr other ↦ rw other (
      lookup-update_self token_key jti (mark rotated) (λ t. refl) d.refresh_tokens {r = x.row}
        x.found)
]

-- A token that was just exchanged and is presented again, at whatever time its claims still pass, is
-- refused, and the second request bumps the version and revokes every row of the admin.
pub refresh_twice :
    (cfg : AuthConfig) (jwt : Jwt) (draw again : Draw) (token : String) (tv : ℕ) (jti : String)
    (d : Accounts)
    → IsExchangeable cfg jwt draw token tv jti d
    → IsRefreshOf cfg jwt again.app_now token tv jti
    → let first = refresh_request cfg jwt draw token d in
      refresh_request cfg jwt again token first.1
      ≡ (err (unauthorized "Token reuse detected"), killed cfg.admin_username first.1)
unfolding get_admin get_refresh_token
refresh_twice cfg jwt draw again token tv jti d x claims =
    rw (refresh_rotates cfg jwt draw token tv jti d x) (
      refresh_reuse cfg jwt again token tv jti (exchanged cfg jwt draw cfg.admin_username tv jti d)
        {admin = x.admin} {row = mark rotated x.row} claims x.known x.current
        (exchanged_row cfg jwt draw token tv jti d x) refl)

-- After a logout that `require_admin` let through, a refresh token of the admin's former version is
-- refused at any time, whatever its row says, and the refusal changes nothing.
pub logout_revokes :
    (cfg : AuthConfig) (jwt : Jwt) (draw later : Draw) (user_id creds : Option String)
    (token : String) (tv : ℕ) (jti : String) (d : Accounts) {admin : Admin}
    → (require_admin cfg jwt draw.app_now user_id creds (opened d)).0 ≡ ok cfg.admin_username
    → get_admin cfg.admin_username d ≡ some admin
    → tv ≤ admin.token_version
    → IsRefreshOf cfg jwt later.app_now token tv jti
    → let after = (logout_request cfg jwt draw user_id creds d).1 in
      ((logout_request cfg jwt draw user_id creds d).0 ≡ ok tt)
      × (after ≡ killed cfg.admin_username d)
      × (refresh_request cfg jwt later token after
          ≡ (err (unauthorized "Token has been revoked"), after))
logout_revokes cfg jwt draw later user_id creds token tv jti d {admin} passed known old claims =
    let done : logout_request cfg jwt draw user_id creds d ≡ (ok tt, killed cfg.admin_username d) =
      logout_request_lem cfg jwt draw user_id creds d
      ∙ rw passed (rw (logout_body_lem cfg jwt cfg.admin_username d {admin = admin} known) refl) in
    rw done (
      refl,
      refl,
      refresh_stale cfg jwt later token tv jti (killed cfg.admin_username d)
          {admin = bump_version admin} claims
          (unfold get_admin in
            lookup-update_self admin_key cfg.admin_username bump_version (λ a. refl) d.admins
              {r = admin} known)
          (omega arith),
    )

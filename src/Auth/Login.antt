-- ===== src/Auth/Login.antt =====
-- `login`: what it refuses, and that the refresh token it issues can be exchanged.
use blog_be.Prelude.{
  ℕ, ◌<◌, String, ◌≡◌, refl, ◌∙◌, ap, sym, Bool, true, false, ◌&&◌, none, some, ◌∷◌, ◌==◌,
  string_eq, Bool-cases, Option-cases, inl, inr, arith, if◌then◌else◌,
}
use blog_be.Prelude.Table.{lookup, has, has-of_none, has_of_lookup}
use blog_be.Error.{unauthorized}
use blog_be.Exec.{ok, err}
use blog_be.Session.Laws.{request-transactional}
use blog_be.Auth.Repository.{
  Admin, Accounts, active, refresh_status_eq, admin_key, token_key, get_admin, get_refresh_token,
  insert_admin, upsert_admin, record_refresh_token,
}
use blog_be.Auth.Password.{Bcrypt, verify_password}
use blog_be.Auth.Token.{
  AuthConfig, Jwt, IsJwt, refresh as refresh_type, issued, payload_of, issue, issue_refresh_token,
  refresh_token_of,
}
use blog_be.Auth.Routes.{
  Draw, login, login_request, refresh_request, start_family, TokenPair, refresh_expires_at,
}
use blog_be.Auth.Rotation.{IsRefreshOf, exchanged, new_refresh_token, signed_pair, pair_of_lem}
use blog_be.Auth.Replay.{IsExchangeable, refresh_rotates}
use blog_be.Auth.Issued.{is_live}

module _ (cfg : AuthConfig) (jwt : Jwt) (lib : Bcrypt) (dummy_hash : String) (draw : Draw)
    (d : Accounts) (key : String) where
  -- the admin's name with a password that the configured hash accepts
  abbrev pub accepted : String → String → Bool
  accepted username password =
      (username == cfg.admin_username) && verify_password lib password cfg.admin_password_hash

  -- the version that a login finds: that of the admin, or 1 for the first login
  abbrev pub version_at_login : ℕ
  version_at_login = elim (get_admin cfg.admin_username d) [
    | none ↦ 1
    | some admin ↦ admin.token_version
  ]

  abbrev pub with_admin : Accounts
  with_admin = insert_admin draw.db_now cfg.admin_username cfg.admin_password_hash d

  abbrev pub issued_refresh_token : String
  issued_refresh_token =
      refresh_token_of cfg jwt key cfg.admin_username version_at_login draw.app_now draw.refresh_jti

  -- the answer of a login
  abbrev pub issued_pair : TokenPair
  issued_pair =
      signed_pair cfg jwt draw cfg.admin_username version_at_login draw.refresh_jti key
        issued_refresh_token

  -- the tables after a login
  abbrev pub logged_in : Accounts
  logged_in = record with_admin {
    refresh_tokens =
        record {
          jti = draw.refresh_jti;
          subject = cfg.admin_username;
          status = active;
          created_at = draw.db_now;
          expires_at = refresh_expires_at cfg jwt draw.app_now;
        }
        ∷ with_admin.refresh_tokens;
  }

  admin_at_login :
      (admin : Admin) × (get_admin cfg.admin_username with_admin ≡ some admin)
      × (admin.token_version ≡ version_at_login)
  unfolding get_admin
  admin_at_login = elim (Option-cases (lookup admin_key cfg.admin_username d.admins)) [
    | inl absent ↦ (
      record {
        username = cfg.admin_username;
        password_hash = cfg.admin_password_hash;
        token_version = 1;
        created_at = draw.db_now;
      },
      ground (
        arith,
        has-of_none admin_key cfg.admin_username d.admins absent,
        string_eq.beq_iff cfg.admin_username cfg.admin_username,
      ),
      ground (arith, absent),
    )
    | inr (admin, found) ↦ (
      admin,
      ground (arith, has_of_lookup admin_key cfg.admin_username d.admins {r = admin} found),
      ground (arith, found),
    )
  ]

  login_refused :
      (username password : String)
      → accepted username password ≡ false
      → login cfg jwt lib dummy_hash draw username password d
        ≡ (err (unauthorized "Invalid credentials"), d)
  unfolding login
  login_refused username password h = ground arith

  tokens_kept : with_admin.refresh_tokens ≡ d.refresh_tokens
  tokens_kept = elim (Bool-cases (has admin_key cfg.admin_username d.admins)) [
    | inl known ↦ rw known refl
    | inr new ↦ rw new refl
  ]

  upserted :
      (admin : Admin)
      → get_admin cfg.admin_username with_admin ≡ some admin
      → upsert_admin draw.db_now cfg.admin_username cfg.admin_password_hash d
        ≡ (ok admin, with_admin)
  unfolding upsert_admin
  upserted admin known = rw known refl

  family_started :
      (tv : ℕ)
      → tv ≡ version_at_login
      → has token_key draw.refresh_jti d.refresh_tokens ≡ false
      → cfg.signing_key ≡ ok key
      → start_family cfg jwt draw cfg.admin_username tv with_admin
        ≡ (ok issued_refresh_token, logged_in)
  unfolding start_family record_refresh_token issue_refresh_token issue
  family_started tv e fresh loads =
      let free : has token_key draw.refresh_jti with_admin.refresh_tokens ≡ false =
        ap (λ rows. has token_key draw.refresh_jti rows) tokens_kept ∙ fresh in
      rw (e, loads, free) refl

  login-accepted :
      (username password : String)
      → accepted username password ≡ true
      → has token_key draw.refresh_jti d.refresh_tokens ≡ false
      → cfg.signing_key ≡ ok key
      → login cfg jwt lib dummy_hash draw username password d ≡ (ok issued_pair, logged_in)
  unfolding login
  login-accepted username password h fresh loads =
      let (admin, known, version) = admin_at_login in
      let name : (username == cfg.admin_username) ≡ true = ground (arith, h) in
      let word : verify_password lib password cfg.admin_password_hash ≡ true = ground (arith, h) in
      rw
        (
          name,
          word,
          upserted admin known,
          family_started admin.token_version version fresh loads,
          version,
          pair_of_lem cfg jwt draw cfg.admin_username version_at_login draw.refresh_jti key
              issued_refresh_token loads,
        )
        refl

  -- A login with the admin's name and password commits the admin, if it is the first one, and an active
  -- row for the refresh token that it returns; any other login is answered by 401 and changes nothing.
  pub login_request_lem :
      (username password : String)
      → has token_key draw.refresh_jti d.refresh_tokens ≡ false
      → cfg.signing_key ≡ ok key
      → login_request cfg jwt lib dummy_hash draw username password d ≡ (
          if accepted username password
          then (ok issued_pair, logged_in)
          else (err (unauthorized "Invalid credentials"), d))
  unfolding login_request
  login_request_lem username password fresh loads =
      request-transactional (login cfg jwt lib dummy_hash draw username password) d
      ∙ elim (Bool-cases (accepted username password)) [
        | inl yes_in ↦ rw (yes_in, login-accepted username password yes_in fresh loads) refl
        | inr out ↦ rw (out, login_refused username password out) refl
      ]

  issued_IsRefreshOf :
      (now : ℕ)
      → IsJwt jwt (
          issued cfg jwt refresh_type cfg.refresh_expire_minutes cfg.admin_username version_at_login
            draw.app_now draw.refresh_jti)
      → is_live cfg.refresh_expire_minutes draw.app_now now ≡ true
      → cfg.signing_key ≡ ok key
      → IsRefreshOf cfg jwt now issued_refresh_token version_at_login draw.refresh_jti
  unfolding issue_refresh_token issue
  issued_IsRefreshOf now law live loads = record {
    key = key;
    loads = loads;
    payload = payload_of (
        issued cfg jwt refresh_type cfg.refresh_expire_minutes cfg.admin_username version_at_login
          draw.app_now draw.refresh_jti);
    decoded =
        let here = law.decode-encode key now cfg.jwt_issuer cfg.jwt_audience in
        ground (
          arith,
          here,
          string_eq.beq_iff cfg.jwt_issuer cfg.jwt_issuer,
          string_eq.beq_iff cfg.jwt_audience cfg.jwt_audience,
        );
    sub = refl;
    typ = refl;
    version = refl;
    id = refl;
  }

  logged_in-IsExchangeable :
      (again : Draw)
      → IsJwt jwt (
          issued cfg jwt refresh_type cfg.refresh_expire_minutes cfg.admin_username version_at_login
            draw.app_now draw.refresh_jti)
      → is_live cfg.refresh_expire_minutes draw.app_now again.app_now ≡ true
      → cfg.signing_key ≡ ok key
      → again.db_now < refresh_expires_at cfg jwt draw.app_now
      → has token_key again.refresh_jti logged_in.refresh_tokens ≡ false
      → IsExchangeable cfg jwt again issued_refresh_token version_at_login draw.refresh_jti
          logged_in
  unfolding get_admin get_refresh_token
  logged_in-IsExchangeable again law live loads early fresh =
      let (admin, known, version) = admin_at_login in
      record {
        claims = issued_IsRefreshOf again.app_now law live loads;
        admin = admin;
        known = known;
        current = version;
        row = record {
          jti = draw.refresh_jti;
          subject = cfg.admin_username;
          status = active;
          created_at = draw.db_now;
          expires_at = refresh_expires_at cfg jwt draw.app_now;
        };
        found = ground (arith, string_eq.beq_iff draw.refresh_jti draw.refresh_jti);
        claimable = ground (arith, early);
        fresh = fresh;
      }

  -- If the signing key loads, the refresh token that a login returns is exchanged by the first refresh
  -- that presents it while it lives and its row has not expired: the response has the next token, and the
  -- row is rotated.
  pub login_then_refresh :
      (again : Draw) (username password : String)
      → accepted username password ≡ true
      → has token_key draw.refresh_jti d.refresh_tokens ≡ false
      → IsJwt jwt (
          issued cfg jwt refresh_type cfg.refresh_expire_minutes cfg.admin_username version_at_login
            draw.app_now draw.refresh_jti)
      → is_live cfg.refresh_expire_minutes draw.app_now again.app_now ≡ true
      → cfg.signing_key ≡ ok key
      → again.db_now < refresh_expires_at cfg jwt draw.app_now
      → has token_key again.refresh_jti logged_in.refresh_tokens ≡ false
      → let (answer, after) = login_request cfg jwt lib dummy_hash draw username password d in
        (answer ≡ ok issued_pair)
        × (refresh_request cfg jwt again issued_refresh_token after ≡ (
          ok (
              signed_pair cfg jwt again cfg.admin_username version_at_login draw.refresh_jti key (
                new_refresh_token cfg jwt again cfg.admin_username version_at_login draw.refresh_jti
                  key)),
          exchanged cfg jwt again cfg.admin_username version_at_login draw.refresh_jti after,
        ))
  login_then_refresh again username password yes_in fresh law live loads early fresh' =
      let done : login_request cfg jwt lib dummy_hash draw username password d
          ≡ (ok issued_pair, logged_in) =
        login_request_lem username password fresh loads ∙ rw yes_in refl in
      let x = logged_in-IsExchangeable again law live loads early fresh' in
      let both : ok x.claims.key ≡ ok key = sym x.claims.loads ∙ loads in
      let same : x.claims.key ≡ key = cc in
      rw done (
        refl,
        refresh_rotates cfg jwt again issued_refresh_token version_at_login draw.refresh_jti
              logged_in x
            ∙ ap
                (λ k. (
                  ok (
                      signed_pair cfg jwt again cfg.admin_username version_at_login draw.refresh_jti
                        k
                        (new_refresh_token cfg jwt again cfg.admin_username version_at_login
                          draw.refresh_jti k)),
                  exchanged cfg jwt again cfg.admin_username version_at_login draw.refresh_jti
                      logged_in,
                ))
                same,
      )

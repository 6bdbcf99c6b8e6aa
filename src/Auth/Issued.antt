-- ===== src/Auth/Issued.antt =====
-- The tokens that the program issues, at its own checks.
use blog_be.Prelude.{
  ℕ, ◌+◌, ◌*◌, String, ◌≡◌, refl, Bool, false, ◌&&◌, Option, some, Bool-cases, inl, inr, arith, ltb,
  leb, ◌==◌, string_eq, nat_eq, if◌then◌else◌,
}
use blog_be.Error.{unauthorized}
use blog_be.Exec.{Result, ok, err}
use blog_be.Session.{execute, in_transaction}
use blog_be.Auth.Repository.{Admin, Accounts, get_admin}
use blog_be.Auth.Token.{
  then_result, access_token_of, AuthConfig, Jwt, IsJwt, TokenType, access, payload_of, issued,
  issue, issue_access_token, decode_token, verify_subject, verify_bearer, require_admin,
}
use blog_be.Auth.Rotation.{opened}

-- the time in which a token lives
abbrev pub is_live : ℕ → ℕ → ℕ → Bool
is_live ttl_minutes issued_at now = ltb now (issued_at + ttl_minutes * 60) && leb issued_at now

module _ (cfg : AuthConfig) (jwt : Jwt) where
  decode_issued :
      (kind : TokenType) (ttl : ℕ) (subject : String) (tv issued_at now : ℕ) (jti : String)
      → IsJwt jwt (issued cfg jwt kind ttl subject tv issued_at jti)
      → (key : String) → cfg.signing_key ≡ ok key
      → decode_token cfg jwt now (jwt.encode key (issued cfg jwt kind ttl subject tv issued_at jti))
        ≡ (if is_live ttl issued_at now
            then ok (payload_of (issued cfg jwt kind ttl subject tv issued_at jti))
            else err (unauthorized "Invalid or expired token"))
  unfolding decode_token
  decode_issued kind ttl subject tv issued_at now jti law key loads =
      let law_here = law.decode-encode key now cfg.jwt_issuer cfg.jwt_audience in
      ground (
        arith,
        law_here,
        loads,
        string_eq.beq_iff cfg.jwt_issuer cfg.jwt_issuer,
        string_eq.beq_iff cfg.jwt_audience cfg.jwt_audience,
      )

  -- what the check of the version says of an access token of the admin
  verify_issued :
      (tv ttl issued_at : ℕ) (jti : String) (d : Accounts) {admin : Admin}
      → get_admin cfg.admin_username d ≡ some admin
      → verify_subject cfg jwt
          (payload_of (issued cfg jwt access ttl cfg.admin_username tv issued_at jti))
          access
          (opened d)
        ≡ (
          if admin.token_version == tv
              then ok cfg.admin_username
              else err (unauthorized "Token has been revoked"),
          opened d,
        )
  unfolding verify_subject execute in_transaction
  verify_issued tv ttl issued_at jti d {admin} known =
      ground (arith, known, string_eq.beq_iff cfg.admin_username cfg.admin_username)

  -- a token that was issued was signed with the key
  signed_with :
      (tv issued_at : ℕ) (jti : String) (r : Result String) {token : String}
      → then_result {A = String × String}
          (then_result r (λ key. ok (
            jwt.encode key (
                issued cfg jwt access cfg.access_expire_minutes cfg.admin_username tv issued_at
                  jti),
            jti,
          )))
          (λ token_and_jti. ok token_and_jti.0)
        ≡ ok token
      → (key : String) × (r ≡ ok key)
        × (token ≡ access_token_of cfg jwt key cfg.admin_username tv issued_at jti)
  signed_with tv issued_at jti (ok key) {token} sent = (
    key,
    refl,
    let own : ok (access_token_of cfg jwt key cfg.admin_username tv issued_at jti) ≡ ok token =
          sent in
        cc,
  )
  signed_with tv issued_at jti (err e) sent = absurd (cc)

  -- Outside production the access token that the program issued for the admin passes `require_admin`
  -- exactly while it lives and the admin is at its version; before and after it is invalid, and with
  -- another version it is revoked. The check leaves no transaction open.
  pub access_token_checked :
      (tv issued_at now : ℕ) (jti : String) (user_id : Option String) (d : Accounts) {admin : Admin}
      {token : String}
      → issue_access_token cfg jwt cfg.admin_username tv issued_at jti ≡ ok token
      → IsJwt jwt
          (issued cfg jwt access cfg.access_expire_minutes cfg.admin_username tv issued_at jti)
      → cfg.is_prod ≡ false
      → get_admin cfg.admin_username d ≡ some admin
      → require_admin cfg jwt now user_id (some token) (opened d) ≡ (
        if is_live cfg.access_expire_minutes issued_at now
            then (if admin.token_version == tv
                then ok cfg.admin_username
                else err (unauthorized "Token has been revoked"))
            else err (unauthorized "Invalid or expired token"),
        opened d,
      )
  unfolding require_admin verify_bearer issue_access_token issue
  access_token_checked tv issued_at now jti user_id d {admin} {token} sent law local known =
      let (key, loads, text) = signed_with tv issued_at jti cfg.signing_key {token = token} sent in
      let decoded =
        decode_issued access cfg.access_expire_minutes cfg.admin_username tv issued_at now jti law
          key loads in
      rw text (
        simp local (elim (Bool-cases (is_live cfg.access_expire_minutes issued_at now)) [
          | inl live ↦
              rw
                (
                  decoded,
                  live,
                  verify_issued tv cfg.access_expire_minutes issued_at jti d {admin = admin} known,
                )
                refl
          | inr dead ↦ rw (decoded, dead) refl
        ]))

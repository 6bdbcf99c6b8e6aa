-- ===== src/App/SignOut.antt =====
-- What a logout does to the access tokens that were issued before it.
use blog_be.Prelude.{
  ℕ, ◌≤◌, ◌<◌, String, ◌≡◌, refl, ◌∙◌, ap, Bool, true, false, some, List, arith, ◌==◌, nat_eq,
  if◌then◌else◌,
}
use blog_be.Error.{Error, unauthorized}
use blog_be.Exec.{Result, ok, err}
use blog_be.Session.{execute, transactional}
use blog_be.Session.Laws.{settled}
use blog_be.Server.Http.{Reply, uncached}
use blog_be.Config.{is_prod}
use blog_be.Server.RateLimit.{dispatch}
use blog_be.Auth.Repository.{Admin, Accounts, get_admin}
use blog_be.Auth.Token.{IsJwt, access, issued, issue_access_token, require_admin}
use blog_be.Auth.Routes.{logout_body}
use blog_be.Auth.Rotation.{killed, opened}
use blog_be.Auth.Dependency.{logout_body_lem}
use blog_be.Auth.Issued.{is_live, access_token_checked}
use blog_be.Auth.Concurrent.Versions.{IsAbove}
use blog_be.Auth.Raised.{IsAbove-IsStable, killed-IsAbove}
use blog_be.App.Store.{Store, on_accounts}
use blog_be.App.Endpoints.{Answer, logout_post, status_ok}
use blog_be.App.Handlers.{World, Call, State, settings, route}
use blog_be.App.Serve.{fresh_session, handle}
use blog_be.App.Middleware.{passed, counted, handle-passed}
use blog_be.App.Effects.{
  unused, admin_check, committed-bind, committed-transactional, behind_admin-eq,
}
use blog_be.App.Limit.{is_login-request_of, passed-dispatch}
use blog_be.App.LoginPath.{is_login_endpoint}
use blog_be.App.Kept.{handle_all, handle_all-Kept}
use blog_be.App.Access.{SameSite, handle-SameSite}

module _ {C K P : Type 0} (w : World C K P) where
  abbrev admin_name : String
  admin_name = (settings w).admin_username

  -- outside production the middleware lets every request but a login pass
  not_login-passed :
      (call : Call C) (st : State C K)
      → is_prod w.config ≡ false
      → is_login_endpoint call.endpoint ≡ false
      → (passed w call st).0 ≡ true
  unfolding dispatch
  not_login-passed call st local other =
      rw (passed-dispatch w local call st, is_login-request_of call, other) refl

  logout_committed :
      (out : Call C) (st : State C K) {admin : Admin}
      → get_admin admin_name st.db.committed.accounts ≡ some admin
      → admin_check w out st.db.committed.accounts ≡ ok admin_name
      → (route w out logout_post (fresh_session st)).1.db.committed.accounts
        ≡ killed admin_name st.db.committed.accounts
  unfolding route
  logout_committed out st {admin} known admitted_as =
      let d = st.db.committed in
      let body = on_accounts (logout_body (settings w) w.jwt admin_name) in
      ap (λ (x : Result (Reply (Answer C)) × State C K). x.1.db.committed.accounts)
        (behind_admin-eq w out st _ (ok admin_name) admitted_as)
      ∙ ap (λ (e : Store C). e.accounts)
          (committed-bind (transactional (execute body) (unused d))
              (λ _. uncached {A = Answer C} status_ok)
            ∙ committed-transactional body d)
      ∙ ap
          (λ (x : Result (Unit {0}) × Accounts).
            (settled d (x.0, record d { accounts = x.1 })).1.accounts)
          (logout_body_lem (settings w) w.jwt admin_name d.accounts {admin = admin} known)

  handle_logout :
      (out : Call C) (st : State C K) {admin : Admin}
      → is_prod w.config ≡ false
      → out.endpoint ≡ logout_post
      → get_admin admin_name st.db.committed.accounts ≡ some admin
      → admin_check w out st.db.committed.accounts ≡ ok admin_name
      → (handle w out st).1.db.committed.accounts ≡ killed admin_name st.db.committed.accounts
  handle_logout out st {admin} local is_logout known accepted =
      ap (λ (x : Result (Reply (Answer C)) × State C K). x.1.db.committed.accounts)
        (handle-passed w out st (not_login-passed out st local (ap is_login_endpoint is_logout)))
      ∙ ap
          (λ endpoint.
            (route w out endpoint (fresh_session (counted w out st))).1.db.committed.accounts)
          is_logout
      ∙ logout_committed out (counted w out st) {admin = admin} known accepted

  newer : {v n m : ℕ} → v ≤ n → n < m → v < m
  newer old above = omega (arith, old, above)

  settings_local : is_prod w.config ≡ false → (settings w).is_prod ≡ false
  unfolding settings
  settings_local local = local

  either_way :
      (live current : Bool)
      → current ≡ false
      → (e : Error) × ((if live
            then (if current then ok admin_name else err (unauthorized "Token has been revoked"))
            else err (unauthorized "Invalid or expired token"))
          ≡ err e)
  either_way true current stale = (unauthorized "Token has been revoked", rw stale refl)
  either_way false current stale = (unauthorized "Invalid or expired token", refl)

  -- the tokens of a version that the admin has left
  stale_refused :
      (later : Call C) (st : State C K) (tv issued_at : ℕ) (jti : String) {token : String}
      → is_prod w.config ≡ false
      → IsAbove admin_name tv st.db.committed.accounts
      → IsJwt w.jwt (
          issued
            (settings w)
            w.jwt
            access
            (settings w).access_expire_minutes
            admin_name
            tv
            issued_at
            jti)
      → issue_access_token (settings w) w.jwt admin_name tv issued_at jti ≡ ok token
      → later.creds ≡ some token
      → (e : Error) × (admin_check w later st.db.committed.accounts ≡ err e)
  stale_refused later st tv issued_at jti {token} local (admin, known, above) law made sent =
      let checked =
        access_token_checked (settings w) w.jwt tv issued_at later.draw.app_now jti later.user_id
          st.db.committed.accounts {admin = admin} {token = token} made law (settings_local local)
          known in
      let (e, refused) =
        either_way (is_live (settings w).access_expire_minutes issued_at later.draw.app_now)
          (admin.token_version == tv)
          (ground (arith, above, nat_eq.beq_iff admin.token_version tv)) in
      (
        e,
        ap
              (λ creds.
                (require_admin (settings w) w.jwt later.draw.app_now later.user_id creds
                  (opened st.db.committed.accounts)).0)
              sent
            ∙ ap (λ x. x.0) checked
            ∙ refused,
      )

  -- Outside production a logout that `require_admin` accepts is final: whatever requests are answered
  -- after it, an access token that the program had issued for the admin, at its version then or an
  -- earlier one, is refused, and a request that presents it leaves the posts, the tags and the contents
  -- as they are.
  pub sign_out_final :
      (out later : Call C) (between : List (Call C)) (st : State C K) (tv issued_at : ℕ)
      (jti : String) {admin : Admin} {token : String}
      → is_prod w.config ≡ false
      → out.endpoint ≡ logout_post
      → get_admin admin_name st.db.committed.accounts ≡ some admin
      → admin_check w out st.db.committed.accounts ≡ ok admin_name
      → tv ≤ admin.token_version
      → IsJwt w.jwt (
          issued
            (settings w)
            w.jwt
            access
            (settings w).access_expire_minutes
            admin_name
            tv
            issued_at
            jti)
      → issue_access_token (settings w) w.jwt admin_name tv issued_at jti ≡ ok token
      → later.creds ≡ some token
      → let after = handle_all w between (handle w out st).1 in
        ((e : Error) × (admin_check w later after.db.committed.accounts ≡ err e))
        × SameSite after.db (handle w later after).1.db
  sign_out_final out later between st tv issued_at jti {admin} {token} local is_logout known
        accepted old law made sent =
      let after = handle_all w between (handle w out st).1 in
      let signed_out : (handle w out st).1.db.committed.accounts
          ≡ killed admin_name st.db.committed.accounts =
        handle_logout out st {admin = admin} local is_logout known accepted in
      let above : IsAbove admin_name admin.token_version after.db.committed.accounts =
        (handle_all-Kept w (IsAbove admin_name admin.token_version) (λ _. Unit) (λ _. Unit)
          (IsAbove-IsStable admin_name admin.token_version) (λ _ _ _ _. tt) (λ _ _ _ _ _ _. tt)
          between (handle w out st).1
          (record {
            accounts =
                rw signed_out
                  (killed-IsAbove admin_name st.db.committed.accounts {admin = admin} known);
            blog = tt;
            contents = tt;
          })).accounts in
      let (e, refused) =
        stale_refused later after tv issued_at jti {token = token} local
          (above.0, above.1, newer old above.2) law made sent in
      ((e, refused), handle-SameSite w later after e refused)

-- ===== src/Tests/SignOutTests.antt =====
-- A logout, a login after it, and the token of before.
use blog_be.Prelude.{String, ◌≡◌, refl, some, [], ◌∷◌, arith}
use blog_be.Error.{Error}
use blog_be.Exec.{ok, err}
use blog_be.Session.{execute, in_transaction}
use blog_be.Config.{is_prod}
use blog_be.Auth.Keys.{private_key}
use blog_be.Auth.Repository.{get_admin}
use blog_be.Auth.Token.{
  require_admin, verify_bearer, verify_subject, decode_token, issue_access_token, issue,
}
use blog_be.App.Endpoints.{post_delete, login_post, logout_post}
use blog_be.App.Handlers.{World, Call, State, settings}
use blog_be.App.Serve.{handle}
use blog_be.App.Effects.{admin_check}
use blog_be.App.Kept.{handle_all}
use blog_be.App.Access.{SameSite}
use blog_be.App.SignOut.{sign_out_final}
use blog_be.Tests.AuthTests.{draw, admin_row}
use blog_be.Tests.IssuedTests.{one_jwt, one_jwt-IsJwt, admin_known, token_is_issued}
use blog_be.Tests.AppTests.{local, state, stranger, local_config-is_prod}

abbrev access_world : World String (Unit {0}) (Unit {0})
access_world = record local { jwt = one_jwt }

abbrev out : Call String
out = record stranger {
  endpoint = logout_post;
  creds = some "token";
  draw = record draw { app_now = 500 };
}

abbrev login_again : Call String
login_again = record stranger { endpoint = login_post "admin" "secret" }

abbrev late_delete : Call String
late_delete = record stranger {
  endpoint = post_delete "first";
  creds = some "token";
  draw = record draw { app_now = 600 };
}

abbrev signed_out : State String (Unit {0})
signed_out = handle_all access_world (login_again ∷ []) (handle access_world out state).1

out_accepted : admin_check access_world out state.db.committed.accounts ≡ ok "admin"
unfolding require_admin settings private_key is_prod verify_bearer decode_token verify_subject
    execute in_transaction get_admin
out_accepted = refl

sign_out_final_example :
    ((e : Error) × (admin_check access_world late_delete signed_out.db.committed.accounts ≡ err e))
    × SameSite signed_out.db (handle access_world late_delete signed_out).1.db
unfolding settings is_prod private_key issue_access_token issue
sign_out_final_example =
    sign_out_final access_world out late_delete (login_again ∷ []) state 1 100 "a1"
      {admin = admin_row} {token = "token"} local_config-is_prod refl admin_known out_accepted
      (omega arith) one_jwt-IsJwt token_is_issued refl

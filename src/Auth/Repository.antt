-- ===== src/Auth/Repository.antt =====
-- app/admin/domain/entity.py, refresh_token.py and app/admin/infrastructure/repository.py.
use blog_be.Prelude.{
  ℕ, ◌+◌, String, ◌≡◌, ◌↔◌, Bool, true, false, ◌&&◌, Option, none, some, List, ◌∷◌, map, ◌==◌, Eq,
  string_eq, if◌then◌else◌, ltb, arith,
}
use blog_be.Prelude.Table.{lookup, has, update}
use blog_be.Error.{integrity_error, assertion_error}
use blog_be.Exec.{Exec, ok, err, pure, or_raise, modify, ◌>>=◌, ◌>>◌}

pub record Admin : Type 0 where
  pub username : String
  pub password_hash : String
  pub token_version : ℕ
  pub created_at : ℕ

-- `RefreshStatus`
pub data RefreshStatus : Type 0 where
  active rotated revoked : RefreshStatus

abbrev refresh_status_beq : RefreshStatus → RefreshStatus → Bool
refresh_status_beq active active = true
refresh_status_beq rotated rotated = true
refresh_status_beq revoked revoked = true
refresh_status_beq _ _ = false

pub refresh_status_beq_iff : (a b : RefreshStatus) → (refresh_status_beq a b ≡ true) ↔ (a ≡ b)
refresh_status_beq_iff active b = ground arith
refresh_status_beq_iff rotated b = ground arith
refresh_status_beq_iff revoked b = ground arith

instance abbrev pub refresh_status_eq : Eq RefreshStatus
refresh_status_eq = record { beq = refresh_status_beq; beq_iff = refresh_status_beq_iff }

pub record RefreshToken : Type 0 where
  pub jti : String
  pub subject : String
  pub status : RefreshStatus
  pub created_at : ℕ
  pub expires_at : ℕ

-- the tables `admins` and `refresh_tokens`
pub record Accounts : Type 0 where
  pub admins : List Admin
  pub refresh_tokens : List RefreshToken

abbrev pub admin_key : Admin → String
admin_key a = a.username

abbrev pub token_key : RefreshToken → String
token_key t = t.jti

unfoldable pub get_admin : String → Accounts → Option Admin
get_admin username d = lookup admin_key username d.admins

-- INSERT … ON CONFLICT DO NOTHING; a new admin has the default version 1
abbrev pub insert_admin : ℕ → String → String → Accounts → Accounts
insert_admin now username password_hash d =
    if has admin_key username d.admins then d else record d {
      admins =
          record {
            username = username;
            password_hash = password_hash;
            token_version = 1;
            created_at = now;
          }
          ∷ d.admins;
    }

-- `upsert_admin`, with its `assert`
unfoldable pub upsert_admin : ℕ → String → String → Exec Accounts Admin
upsert_admin now username password_hash = do
  modify (insert_admin now username password_hash)
  (λ d. or_raise (get_admin username d) assertion_error d)

abbrev pub bump_version : Admin → Admin
bump_version a = record a { token_version = a.token_version + 1 }

-- `increment_token_version`, with its `assert`
unfoldable pub increment_token_version : String → Exec Accounts ℕ
increment_token_version username = do
  modify (λ d. record d { admins = update admin_key username bump_version d.admins })
  admin ← (λ d. or_raise (get_admin username d) assertion_error d)
  pure admin.token_version

-- `record_refresh_token`; `jti` is the primary key
unfoldable pub record_refresh_token : ℕ → String → String → ℕ → Exec Accounts (Unit {0})
record_refresh_token now jti subject expires_at d =
    if has token_key jti d.refresh_tokens then (err integrity_error, d) else (
      ok tt,
      record d {
        refresh_tokens =
            record {
              jti = jti;
              subject = subject;
              status = active;
              created_at = now;
              expires_at = expires_at;
            }
            ∷ d.refresh_tokens;
      },
    )

unfoldable pub get_refresh_token : String → Accounts → Option RefreshToken
get_refresh_token jti d = lookup token_key jti d.refresh_tokens

abbrev pub is_claimable : ℕ → RefreshToken → Bool
is_claimable now t = t.status == active && ltb now t.expires_at

abbrev pub mark : RefreshStatus → RefreshToken → RefreshToken
mark status t = record t { status = status }

-- `claim_refresh_token_rotation`: one UPDATE … WHERE … RETURNING on the row of a primary key
unfoldable pub claim_refresh_token_rotation : ℕ → String → Exec Accounts Bool
claim_refresh_token_rotation now jti d = elim (lookup token_key jti d.refresh_tokens) [
  | none ↦ (ok false, d)
  | some t ↦
      if is_claimable now t
      then (
        ok true,
        record d { refresh_tokens = update token_key jti (mark rotated) d.refresh_tokens },
      )
      else (ok false, d)
]

-- the UPDATE … WHERE subject = … of `revoke_refresh_tokens`
abbrev pub revoke_rows : String → List RefreshToken → List RefreshToken
revoke_rows subject rows = map (λ t. if t.subject == subject then mark revoked t else t) rows

unfoldable pub revoke_refresh_tokens : String → Exec Accounts (Unit {0})
revoke_refresh_tokens subject =
    modify (λ d. record d { refresh_tokens = revoke_rows subject d.refresh_tokens })

-- ===== src/Auth/Validity.antt =====
-- The primary keys of `admins` and `refresh_tokens`.
use blog_be.Prelude.{
  ℕ, String, ◌≡◌, refl, List, [], ◌∷◌, string_eq, arith, inl, inr, Bool-cases, Option-cases,
}
use blog_be.Prelude.Table.{lookup, has, update, IsUnique, update-IsUnique}
use blog_be.Error.{assertion_error}
use blog_be.Exec.{or_raise}
use blog_be.Exec.Keeps.{Keeps, bind-Keeps, or_raise-Keeps}
use blog_be.Auth.Repository.{
  Accounts, RefreshToken, rotated, refresh_status_eq, admin_key, token_key, get_admin, insert_admin,
  bump_version, increment_token_version, record_refresh_token, is_claimable, mark,
  claim_refresh_token_rotation, revoke_rows, revoke_refresh_tokens,
}
use blog_be.Auth.Stable.{IsStable}

-- each admin has one row, and each refresh token
pub record IsAccounts (d : Accounts) : Type 0 where
  pub admins : IsUnique admin_key d.admins
  pub tokens : IsUnique token_key d.refresh_tokens

insert_admin-IsAccounts :
    (now : ℕ) (username password_hash : String) (d : Accounts)
    → IsAccounts d
    → IsAccounts (insert_admin now username password_hash d)
insert_admin-IsAccounts now username password_hash d v =
    elim (Bool-cases (has admin_key username d.admins)) [
      | inl there ↦ rw there v
      | inr new ↦ rw new (record { admins = (new, v.admins); tokens = v.tokens })
    ]

increment-Keeps : (username : String) → Keeps IsAccounts (increment_token_version username)
unfolding increment_token_version
increment-Keeps username d v =
    let d' = record d { admins = update admin_key username bump_version d.admins } in
    bind-Keeps IsAccounts (or_raise (get_admin username d') assertion_error d') _
      (or_raise-Keeps IsAccounts (get_admin username d') assertion_error d' (record {
        admins = update-IsUnique admin_key username bump_version (λ a. refl) d.admins v.admins;
        tokens = v.tokens;
      }))
      (λ admin s w. w)

record-Keeps :
    (now : ℕ) (jti subject : String) (expires_at : ℕ)
    → Keeps IsAccounts (record_refresh_token now jti subject expires_at)
unfolding record_refresh_token
record-Keeps now jti subject expires_at d v =
    elim (Bool-cases (has token_key jti d.refresh_tokens)) [
      | inl there ↦ rw there v
      | inr new ↦ rw new (record { admins = v.admins; tokens = (new, v.tokens) })
    ]

claim-Keeps : (now : ℕ) (jti : String) → Keeps IsAccounts (claim_refresh_token_rotation now jti)
unfolding claim_refresh_token_rotation
claim-Keeps now jti d v = elim (Option-cases (lookup token_key jti d.refresh_tokens)) [
  | inl gone ↦ rw (gone, claim_refresh_token_rotation) v
  | inr (t, found) ↦ elim (Bool-cases (is_claimable now t)) [
    | inl yes_in ↦
        rw (found, claim_refresh_token_rotation, yes_in)
          (record {
            admins = v.admins;
            tokens =
                update-IsUnique token_key jti (mark rotated) (λ r. refl) d.refresh_tokens v.tokens;
          })
    | inr no_in ↦ rw (found, claim_refresh_token_rotation, no_in) v
  ]
]

has-revoke_rows :
    (subject jti : String) (rows : List RefreshToken)
    → has token_key jti (revoke_rows subject rows) ≡ has token_key jti rows
has-revoke_rows subject jti [] = refl
has-revoke_rows subject jti (t ∷ rows) = ground (arith, has-revoke_rows subject jti rows)

revoke_rows-IsUnique :
    (subject : String) (rows : List RefreshToken)
    → IsUnique token_key rows
    → IsUnique token_key (revoke_rows subject rows)
revoke_rows-IsUnique subject [] u = tt
revoke_rows-IsUnique subject (t ∷ rows) u =
    ground (arith, revoke_rows-IsUnique subject rows u.1, has-revoke_rows subject t.jti rows)

revoke-Keeps : (subject : String) → Keeps IsAccounts (revoke_refresh_tokens subject)
unfolding revoke_refresh_tokens
revoke-Keeps subject d v = record {
  admins = v.admins;
  tokens = revoke_rows-IsUnique subject d.refresh_tokens v.tokens;
}

pub IsAccounts-IsStable : IsStable IsAccounts
IsAccounts-IsStable = record {
  insert = insert_admin-IsAccounts;
  increment = increment-Keeps;
  start = record-Keeps;
  claim = claim-Keeps;
  revoke = revoke-Keeps;
}

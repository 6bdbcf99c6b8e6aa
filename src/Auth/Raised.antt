-- ===== src/Auth/Raised.antt =====
-- A version of the admin that is raised stays raised.
use blog_be.Prelude.{
  ℕ, String, ◌≡◌, refl, ◌∙◌, some, arith, inl, inr, Bool-cases, Option-cases, ◌==◌, string_eq,
}
use blog_be.Prelude.Table.{lookup, has, update, lookup-update_self, lookup-update_ne, has_of_lookup}
use blog_be.Error.{assertion_error}
use blog_be.Exec.{or_raise}
use blog_be.Exec.Keeps.{Keeps, bind-Keeps, or_raise-Keeps}
use blog_be.Auth.Repository.{
  Admin, Accounts, admin_key, get_admin, insert_admin, bump_version, increment_token_version,
  record_refresh_token, claim_refresh_token_rotation, is_claimable, token_key,
  revoke_refresh_tokens,
}
use blog_be.Auth.Rotation.{killed}
use blog_be.Auth.Stable.{IsStable}
use blog_be.Auth.Concurrent.Versions.{IsAbove}

module _ (subject : String) (n : ℕ) where
  bumped-IsAbove :
      (username : String) (d : Accounts)
      → IsAbove subject n d
      → IsAbove subject n (record d { admins = update admin_key username bump_version d.admins })
  unfolding get_admin
  bumped-IsAbove username d (admin, known, above) = elim (Bool-cases (subject == username)) [
    | inl same ↦
        let own : subject ≡ username = (string_eq.beq_iff subject username).0 same in
        (
          bump_version admin,
          rw⁻¹ own (
              lookup-update_self admin_key subject bump_version (λ a. refl) d.admins {r = admin}
                known),
          omega arith,
        )
    | inr other ↦ (
      admin,
      lookup-update_ne admin_key username bump_version (λ a. refl) subject d.admins
            (λ e. ground (arith, string_eq.beq_iff subject username))
          ∙ known,
      above,
    )
  ]

  insert_admin-IsAbove :
      (now : ℕ) (username password_hash : String) (d : Accounts)
      → IsAbove subject n d
      → IsAbove subject n (insert_admin now username password_hash d)
  unfolding get_admin
  insert_admin-IsAbove now username password_hash d (admin, known, above) =
      elim (Bool-cases (has admin_key username d.admins)) [
        | inl there ↦ rw there (admin, known, above)
        | inr new ↦ rw new (
          admin,
          ground (
            arith,
            known,
            new,
            has_of_lookup admin_key subject d.admins {r = admin} known,
            string_eq.beq_iff username subject,
          ),
          above,
        )
      ]

  same_admins :
      (d d' : Accounts) → d'.admins ≡ d.admins → IsAbove subject n d → IsAbove subject n d'
  unfolding get_admin
  same_admins d d' same (admin, known, above) = (admin, rw same known, above)

  increment-Keeps :
      (username : String) → Keeps (IsAbove subject n) (increment_token_version username)
  unfolding increment_token_version
  increment-Keeps username d v =
      let d' = record d { admins = update admin_key username bump_version d.admins } in
      bind-Keeps (IsAbove subject n) (or_raise (get_admin username d') assertion_error d') _
        (or_raise-Keeps (IsAbove subject n) (get_admin username d') assertion_error d'
          (bumped-IsAbove username d v))
        (λ admin s w. w)

  record_admins :
      (now : ℕ) (jti owner : String) (expires_at : ℕ) (d : Accounts)
      → (record_refresh_token now jti owner expires_at d).1.admins ≡ d.admins
  unfolding record_refresh_token
  record_admins now jti owner expires_at d = ground arith

  claim_admins :
      (now : ℕ) (jti : String) (d : Accounts)
      → (claim_refresh_token_rotation now jti d).1.admins ≡ d.admins
  unfolding claim_refresh_token_rotation
  claim_admins now jti d = elim (Option-cases (lookup token_key jti d.refresh_tokens)) [
    | inl gone ↦ rw (gone, claim_refresh_token_rotation) refl
    | inr (t, found) ↦ elim (Bool-cases (is_claimable now t)) [
      | inl free ↦ rw (found, claim_refresh_token_rotation, free) refl
      | inr taken ↦ rw (found, claim_refresh_token_rotation, taken) refl
    ]
  ]

  revoke_admins :
      (owner : String) (d : Accounts) → (revoke_refresh_tokens owner d).1.admins ≡ d.admins
  unfolding revoke_refresh_tokens
  revoke_admins owner d = refl

  pub IsAbove-IsStable : IsStable (IsAbove subject n)
  IsAbove-IsStable = record {
    insert = insert_admin-IsAbove;
    increment = increment-Keeps;
    start = λ now jti owner expires_at d v.
        same_admins d _ (record_admins now jti owner expires_at d) v;
    claim = λ now jti d v. same_admins d _ (claim_admins now jti d) v;
    revoke = λ owner d v. same_admins d _ (revoke_admins owner d) v;
  }

pub killed-IsAbove :
    (subject : String) (d : Accounts) {admin : Admin}
    → get_admin subject d ≡ some admin
    → IsAbove subject admin.token_version (killed subject d)
unfolding get_admin
killed-IsAbove subject d {admin} known = (
  bump_version admin,
  lookup-update_self admin_key subject bump_version (λ a. refl) d.admins {r = admin} known,
  omega arith,
)

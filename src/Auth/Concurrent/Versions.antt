-- ===== src/Auth/Concurrent/Versions.antt =====
-- The version of the admin never falls, and a committed logout or kill raises it for good.
use blog_be.Prelude.{
  ℕ, ◌≤◌, ◌<◌, String, ◌≡◌, ◌≢◌, refl, ◌∙◌, ap, sym, Bool, some, ◌⊎◌, inl, inr, arith, string_eq,
}
use blog_be.Prelude.Table.{lookup-update_self}
use blog_be.Auth.Repository.{Admin, Accounts, admin_key, bump_version, get_admin}
use blog_be.Auth.Concurrent.{
  Attempt, Pc, ready, checked, claimed, recorded, won, lost, reused, bumped, swept, killed, refused,
  System, set_pc, Step, Run, here, next, check_passes, check_fails, claim, claim_nothing,
  insert_row, insert_fails, exchange, find_rotated, find_other, bump, bump_logout, revoke, kill,
  abort, commit_exchange, commit_kill,
}
use blog_be.Auth.Concurrent.Invariant.{at}

-- the admin is at a version above `n`
abbrev pub IsAbove : String → ℕ → Accounts → Type 0
IsAbove subject n d =
    (admin : Admin) × (get_admin subject d ≡ some admin) × (n < admin.token_version)

module _ (subject : String) where
  kill-raises :
      (rows : String → Bool) (d : Accounts) (admin : Admin)
      → get_admin subject d ≡ some admin
      → IsAbove subject admin.token_version (commit_kill subject rows d)
  unfolding commit_kill get_admin
  kill-raises rows d admin known = (
    bump_version admin,
    lookup-update_self admin_key subject bump_version (λ a. refl) d.admins {r = admin} known,
    omega arith,
  )

  kill-IsAbove :
      (n : ℕ) (rows : String → Bool) (d : Accounts)
      → IsAbove subject n d
      → IsAbove subject n (commit_kill subject rows d)
  kill-IsAbove n rows d (admin, known, above) =
      let (raised, known', higher) = kill-raises rows d admin known in
      (raised, known', omega (arith, above, higher))

  exchange-IsAbove :
      (n : ℕ) (a : Attempt) (d : Accounts)
      → IsAbove subject n d
      → IsAbove subject n (commit_exchange subject a d)
  unfolding commit_exchange get_admin
  exchange-IsAbove n a d h = h

  Step-IsAbove :
      {s t : System} (n : ℕ) → Step subject s t → IsAbove subject n s.db → IsAbove subject n t.db
  Step-IsAbove n (check_passes i a admin e known current) h = h
  Step-IsAbove n (check_fails i a e stale) h = h
  Step-IsAbove n (claim i a row e free found fit) h = h
  Step-IsAbove n (claim_nothing i a e unfit) h = h
  Step-IsAbove n (insert_row i a e free absent) h = h
  Step-IsAbove n (insert_fails i a e taken) h = h
  Step-IsAbove {s} n (exchange i a e) h = exchange-IsAbove n a s.db h
  Step-IsAbove n (find_rotated i a row e found spent) h = h
  Step-IsAbove n (find_other i a e other) h = h
  Step-IsAbove n (bump i a e free) h = h
  Step-IsAbove n (bump_logout i e free) h = h
  Step-IsAbove n (revoke i rows e free) h = h
  Step-IsAbove {s} n (kill i rows e) h = kill-IsAbove n rows s.db h
  Step-IsAbove n (abort i open_still) h = h

  Run-IsAbove :
      {s t : System} (n : ℕ) → Run subject s t → IsAbove subject n s.db → IsAbove subject n t.db
  Run-IsAbove n here h = h
  Run-IsAbove n (next run st) h = Step-IsAbove n st (Run-IsAbove n run h)

  -- a request that is newly `checked` has read an admin at the version of its token
  abbrev Current : System → ℕ → Attempt → Type 0
  Current s j a =
      (s.pc j ≡ checked a)
      ⊎ ((admin : Admin) × (get_admin subject s.db ≡ some admin) × (admin.token_version ≡ a.tv))

  unchanged :
      (s : System) (i j : ℕ) (p : Pc) (a : Attempt)
      → p ≢ checked a
      → set_pc s.pc i p j ≡ checked a
      → Current s j a
  unchanged s i j p a other h = elim (at s.pc i p j) [
    | inl (_, e) ↦ absurd (other (sym e ∙ h))
    | inr (_, e) ↦ inl (sym e ∙ h)
  ]

  passed :
      (s : System) (i j : ℕ) (a b : Attempt) (admin : Admin)
      → get_admin subject s.db ≡ some admin
      → admin.token_version ≡ b.tv
      → set_pc s.pc i (checked b) j ≡ checked a
      → Current s j a
  passed s i j a b admin known current h = elim (at s.pc i (checked b) j) [
    | inl (_, e) ↦ let same : checked b ≡ checked a = sym e ∙ h in inr (admin, known, cc)
    | inr (_, e) ↦ inl (sym e ∙ h)
  ]

  Step-Current :
      {s t : System} (j : ℕ) (a : Attempt) → Step subject s t → t.pc j ≡ checked a → Current s j a
  Step-Current {s} j a (check_passes i b admin e known current) h =
      passed s i j a b admin known current h
  Step-Current {s} j a (check_fails i b e stale) h = unchanged s i j refused a (λ x. cc) h
  Step-Current {s} j a (claim i b row e free found fit) h =
      unchanged s i j (claimed b) a (λ x. cc) h
  Step-Current {s} j a (claim_nothing i b e unfit) h = unchanged s i j (lost b) a (λ x. cc) h
  Step-Current {s} j a (insert_row i b e free absent) h = unchanged s i j (recorded b) a (λ x. cc) h
  Step-Current {s} j a (insert_fails i b e taken) h = unchanged s i j refused a (λ x. cc) h
  Step-Current {s} j a (exchange i b e) h = unchanged s i j (won b) a (λ x. cc) h
  Step-Current {s} j a (find_rotated i b row e found spent) h =
      unchanged s i j (reused b) a (λ x. cc) h
  Step-Current {s} j a (find_other i b e other) h = unchanged s i j refused a (λ x. cc) h
  Step-Current {s} j a (bump i b e free) h = unchanged s i j bumped a (λ x. cc) h
  Step-Current {s} j a (bump_logout i e free) h = unchanged s i j bumped a (λ x. cc) h
  Step-Current {s} j a (revoke i rows e free) h = unchanged s i j (swept rows) a (λ x. cc) h
  Step-Current {s} j a (kill i rows e) h = unchanged s i j killed a (λ x. cc) h
  Step-Current {s} j a (abort i open_still) h = unchanged s i j refused a (λ x. cc) h

  -- Once a logout or the kill of a family is committed, no request of a token of the admin's version
  -- before it, or of an earlier one, passes the check of the version, whatever runs in between.
  pub killed_version_refused :
      (s t u : System) (i j : ℕ) (rows : String → Bool) (a : Attempt) (admin : Admin)
      → get_admin subject s.db ≡ some admin
      → a.tv ≤ admin.token_version
      → Run subject (record { db = commit_kill subject rows s.db; pc = set_pc s.pc i killed }) t
      → t.pc j ≡ ready a
      → Step subject t u
      → u.pc j ≢ checked a
  killed_version_refused s t u i j rows a admin known old run waits st passes =
      let (later, known', above) =
        Run-IsAbove admin.token_version run (kill-raises rows s.db admin known) in
      elim (Step-Current j a st passes) [
        | inl already ↦ cc
        | inr (read, known'', current) ↦
            let same : read ≡ later = cc in
            let v : read.token_version ≡ later.token_version =
              ap (λ (x : Admin). x.token_version) same in
            omega (arith, v, above, current, old)
      ]

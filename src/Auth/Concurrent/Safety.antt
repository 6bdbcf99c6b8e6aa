-- ===== src/Auth/Concurrent/Safety.antt =====
-- Concurrent refreshes: a token is exchanged by one request at most, and a version of the admin that
-- was killed does not come back.
use mathlib.Core.Path.{subst}
use blog_be.Prelude.{
  ℕ, String, ◌≡◌, ◌≢◌, refl, ◌∙◌, ap, sym, Bool, true, false, some, ◌==◌, nat_eq, string_eq,
  Bool-cases, inl, inr, arith,
}
use blog_be.Prelude.Table.{has}
use blog_be.Auth.Repository.{
  Accounts, RefreshToken, refresh_status_eq, token_key, is_claimable, get_refresh_token,
}
use blog_be.Auth.Concurrent.{
  Attempt, Pc, ready, leaving, checked, claimed, recorded, won, lost, reused, bumped, swept, killed,
  refused, locks, System, set_pc, Free, Step, Run, here, next, check_passes, check_fails, claim,
  claim_nothing, insert_row, insert_fails, exchange, find_rotated, find_other, bump, bump_logout,
  revoke, kill, abort, commit_exchange, commit_kill, is_fresh,
}
use blog_be.Auth.Concurrent.Rows.{is_active, is_spent, not-active-spent, active_of_lookup}
use blog_be.Auth.Concurrent.Invariant.{
  Fits, Inv, exchanged_by, keep, quiet, held, spent_of_exchanged, Spares-Fits, exchange-Spares,
  exchange-spent, kill-Spares,
}

module _ (subject : String) where
  claimable_active :
      (now : ℕ) (jti : String) (d : Accounts) (row : RefreshToken)
      → get_refresh_token jti d ≡ some row
      → is_claimable now row ≡ true
      → is_active jti d.refresh_tokens ≡ true
  unfolding get_refresh_token
  claimable_active now jti d row found fit =
      active_of_lookup jti d.refresh_tokens {row = row} found (ground arith)

  exchange-Inv :
      (s : System) (i : ℕ) (a : Attempt)
      → Inv s
      → s.pc i ≡ recorded a
      → Inv (record { db = commit_exchange subject a s.db; pc = set_pc s.pc i (won a) })
  exchange-Inv s i a v e =
      let own : Fits s.db.refresh_tokens (recorded a) =
        subst (Fits s.db.refresh_tokens) e (v.fits i) in
      keep s v i (won a) (commit_exchange subject a s.db) (exchange-spent subject s.db a own)
        (λ j ne.
          Spares-Fits (s.pc j) (exchange-Spares subject s.db a own.1)
            (λ r theirs. elim (Bool-cases (locks (recorded a) r)) [
              | inl mine ↦ absurd (
                  let free : locks (s.pc j) r ≡ false = held s v i (recorded a) r e mine j ne in
                  let clash : true ≡ false = sym theirs ∙ free in cc)
              | inr other ↦ other
            ])
            (v.fits j))
        (λ r h. absurd (cc))
        (λ r same j ne theirs.
          let spent : is_spent r s.db.refresh_tokens ≡ true =
            spent_of_exchanged s.db.refresh_tokens (s.pc j) r (v.fits j) theirs in
          let live : is_spent a.jti s.db.refresh_tokens ≡ false =
            not-active-spent a.jti s.db.refresh_tokens own.0 in
          let row : a.jti ≡ r = cc in
          let clash : true ≡ false =
            sym spent ∙ ap (λ k. is_spent k s.db.refresh_tokens) (sym row) ∙ live in
          cc)

  kill-Inv :
      (s : System) (i : ℕ) (rows : String → Bool)
      → Inv s
      → s.pc i ≡ swept rows
      → Inv (record { db = commit_kill subject rows s.db; pc = set_pc s.pc i killed })
  kill-Inv s i rows v e =
      keep s v i killed (commit_kill subject rows s.db) tt
        (λ j ne.
          Spares-Fits (s.pc j) (kill-Spares subject s.db rows)
            (λ r theirs. elim (Bool-cases (rows r)) [
              | inl mine ↦ absurd (
                  let free : locks (s.pc j) r ≡ false = held s v i (swept rows) r e mine j ne in
                  let clash : true ≡ false = sym theirs ∙ free in cc)
              | inr other ↦ other
            ])
            (v.fits j))
        (λ r h. absurd (cc)) (λ r same. absurd (cc))

  claim-Inv :
      (s : System) (i : ℕ) (a : Attempt) (row : RefreshToken)
      → Inv s
      → Free s i a.jti
      → get_refresh_token a.jti s.db ≡ some row
      → is_claimable a.db_now row ≡ true
      → Inv (record { db = s.db; pc = set_pc s.pc i (claimed a) })
  claim-Inv s i a row v free found fit =
      quiet s v i (claimed a) (claimable_active a.db_now a.jti s.db row found fit)
        (λ r h j ne. ap (locks (s.pc j)) ((string_eq.beq_iff r a.jti).0 h) ∙ free j ne) refl

  insert-Inv :
      (s : System) (i : ℕ) (a : Attempt)
      → Inv s
      → s.pc i ≡ claimed a
      → Free s i a.new_jti
      → has token_key a.new_jti s.db.refresh_tokens ≡ false
      → Inv (record { db = s.db; pc = set_pc s.pc i (recorded a) })
  insert-Inv s i a v e free absent =
      let own : Fits s.db.refresh_tokens (claimed a) =
        subst (Fits s.db.refresh_tokens) e (v.fits i) in
      quiet s v i (recorded a) (own, absent)
        (λ r h j ne. elim (Bool-cases (r == a.jti)) [
          | inl old ↦ held s v i (claimed a) r e old j ne
          | inr other ↦
              let new : (r == a.new_jti) ≡ true = ground arith in
              ap (locks (s.pc j)) ((string_eq.beq_iff r a.new_jti).0 new) ∙ free j ne
        ])
        refl

  Step-Inv : {s t : System} → Step subject s t → Inv s → Inv t
  Step-Inv {s} (check_passes i a admin e known current) v =
      quiet s v i (checked a) tt (λ r h. absurd (cc)) refl
  Step-Inv {s} (check_fails i a e stale) v = quiet s v i refused tt (λ r h. absurd (cc)) refl
  Step-Inv {s} (claim i a row e free found fit) v = claim-Inv s i a row v free found fit
  Step-Inv {s} (claim_nothing i a e unfit) v = quiet s v i (lost a) tt (λ r h. absurd (cc)) refl
  Step-Inv {s} (insert_row i a e free absent) v = insert-Inv s i a v e free absent
  Step-Inv {s} (insert_fails i a e taken) v = quiet s v i refused tt (λ r h. absurd (cc)) refl
  Step-Inv {s} (exchange i a e) v = exchange-Inv s i a v e
  Step-Inv {s} (find_rotated i a row e found spent) v =
      quiet s v i (reused a) tt (λ r h. absurd (cc)) refl
  Step-Inv {s} (find_other i a e other) v = quiet s v i refused tt (λ r h. absurd (cc)) refl
  Step-Inv {s} (bump i a e free) v = quiet s v i bumped tt (λ r h. absurd (cc)) refl
  Step-Inv {s} (bump_logout i e free) v = quiet s v i bumped tt (λ r h. absurd (cc)) refl
  Step-Inv {s} (revoke i rows e free) v = quiet s v i (swept rows) tt free refl
  Step-Inv {s} (kill i rows e) v = kill-Inv s i rows v e
  Step-Inv {s} (abort i open_still) v = quiet s v i refused tt (λ r h. absurd (cc)) refl

  fresh-Inv : (s : System) → ((i : ℕ) → is_fresh (s.pc i) ≡ true) → Inv s
  fresh-Inv s fresh = record {
    fits = λ i. fresh_fits (s.pc i) (fresh i);
    apart = λ i j r ne h. fresh_locks (s.pc j) r (fresh j);
    once = λ i j r ne e. absurd (fresh_exchanged (s.pc i) r (fresh i) e);
  }
    where
      fresh_fits : (p : Pc) → is_fresh p ≡ true → Fits s.db.refresh_tokens p
      fresh_fits (ready a) h = tt
      fresh_fits leaving h = tt
      fresh_fits (checked a) h = absurd (cc)
      fresh_fits (claimed a) h = absurd (cc)
      fresh_fits (recorded a) h = absurd (cc)
      fresh_fits (won a) h = absurd (cc)
      fresh_fits (lost a) h = absurd (cc)
      fresh_fits (reused a) h = absurd (cc)
      fresh_fits bumped h = absurd (cc)
      fresh_fits (swept rows) h = absurd (cc)
      fresh_fits killed h = absurd (cc)
      fresh_fits refused h = absurd (cc)

      fresh_locks : (p : Pc) (r : String) → is_fresh p ≡ true → locks p r ≡ false
      fresh_locks (ready a) r h = refl
      fresh_locks leaving r h = refl
      fresh_locks p r h = ground arith

      fresh_exchanged : (p : Pc) (r : String) → is_fresh p ≡ true → exchanged_by p ≡ some r → ⊥
      fresh_exchanged (ready a) r h e = cc
      fresh_exchanged p r h e = ground arith

  Run-Inv : {s t : System} → Run subject s t → Inv s → Inv t
  Run-Inv here v = v
  Run-Inv (next run st) v = Step-Inv st (Run-Inv run v)

  -- However the requests are interleaved, a refresh token is exchanged by one of them at most: if `i`
  -- has got a new pair for it, no other request has.
  pub one_winner :
      (s t : System) (i j : ℕ) (a b : Attempt)
      → ((k : ℕ) → is_fresh (s.pc k) ≡ true)
      → Run subject s t
      → i ≢ j
      → t.pc i ≡ won a
      → b.jti ≡ a.jti
      → t.pc j ≢ won b
  one_winner s t i j a b fresh run ne won_i same won_j =
      let v : Inv t = Run-Inv run (fresh-Inv s fresh) in
      v.once i j a.jti ne (rw won_i refl) (rw won_j (ap some same))

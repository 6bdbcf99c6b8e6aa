-- ===== src/Tests/ConcurrentTests.antt =====
-- Two requests with one refresh token at the same time, and one that comes after a logout.
use blog_be.Prelude.{ℕ, zero, suc, ◌≡◌, ◌≢◌, refl, true, some, nat_eq, string_eq, arith}
use blog_be.Auth.Repository.{active, get_admin, get_refresh_token}
use blog_be.Auth.Concurrent.{
  Attempt, Pc, ready, leaving, checked, claimed, recorded, won, swept, killed, System, set_pc, Free,
  Step, Run, here, next, check_passes, check_fails, refused, claim, insert_row, exchange,
  commit_exchange, commit_kill, is_fresh,
}
use blog_be.Auth.Concurrent.Safety.{one_winner}
use blog_be.Auth.Concurrent.Versions.{killed_version_refused}
use blog_be.Tests.AuthTests.{accounts, admin_row, token_row}

abbrev first : Attempt
first = record { jti = "r1"; tv = 1; new_jti = "r2"; db_now = 101; expires_at = 700000 }

abbrev second : Attempt
second = record { jti = "r1"; tv = 1; new_jti = "r3"; db_now = 102; expires_at = 700001 }

abbrev two : ℕ → Pc
two zero = ready first
two (suc zero) = ready second
two _ = leaving

abbrev start : System
start = record { db = accounts active; pc = two }

two_fresh : (k : ℕ) → is_fresh (two k) ≡ true
two_fresh zero = refl
two_fresh (suc zero) = refl
two_fresh (suc (suc k)) = refl

abbrev both_checked : ℕ → Pc
both_checked = set_pc (set_pc two 0 (checked first)) 1 (checked second)

both-Free : Free (record { db = accounts active; pc = both_checked }) 0 "r1"
both-Free zero ne = refl
both-Free (suc zero) ne = refl
both-Free (suc (suc k)) ne = ground arith

claimed-Free :
    Free (record { db = accounts active; pc = set_pc both_checked 0 (claimed first) }) 0 "r2"
claimed-Free zero ne = absurd (ne refl)
claimed-Free (suc zero) ne = refl
claimed-Free (suc (suc k)) ne = ground arith

abbrev exchanged_state : System
exchanged_state = record {
  db = commit_exchange "admin" first (accounts active);
  pc = set_pc (set_pc (set_pc both_checked 0 (claimed first)) 0 (recorded first)) 0 (won first);
}

exchanging : Run "admin" start exchanged_state
unfolding get_admin get_refresh_token
exchanging =
    next
      (next
        (next
          (next (next here (check_passes 0 first admin_row refl refl refl))
            (check_passes 1 second admin_row refl refl refl))
          (claim 0 first (token_row active) refl both-Free refl refl))
        (insert_row 0 first refl claimed-Free refl))
      (exchange 0 first refl)

one_winner_example : exchanged_state.pc 1 ≢ won second
one_winner_example =
    one_winner "admin" start exchanged_state 0 1 first second two_fresh exchanging
      (λ e. omega (arith, e)) refl refl

abbrev swept_state : System
swept_state = record { db = accounts active; pc = set_pc two 2 (swept (λ r. true)) }

abbrev after_logout : System
after_logout = record {
  db = commit_kill "admin" (λ r. true) (accounts active);
  pc = set_pc swept_state.pc 2 killed;
}

abbrev first_refused : System
first_refused = record after_logout { pc = set_pc after_logout.pc 0 refused }

first_is_stale : Step "admin" after_logout first_refused
unfolding commit_kill get_admin
first_is_stale = check_fails 0 first refl (λ admin found same. ground arith)

admin_known : get_admin "admin" swept_state.db ≡ some admin_row
unfolding get_admin
admin_known = refl

killed_version_refused_example : first_refused.pc 0 ≢ checked first
killed_version_refused_example =
    killed_version_refused "admin" swept_state after_logout first_refused 2 0 (λ r. true) first
      admin_row admin_known (omega arith) here refl first_is_stale

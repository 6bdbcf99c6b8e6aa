-- ===== src/Auth/Concurrent.antt =====
-- Requests to `refresh` and `logout` of api/v1/auth.py that run at the same time, a statement at a
-- time. Each transaction runs at PostgreSQL's default level READ COMMITTED: a statement reads what is
-- committed when it takes effect, what a transaction writes is seen by others from its commit on, and
-- an UPDATE waits while another open transaction has written the row, and then reads it again.

pub mod Rows
pub mod Invariant
pub mod Safety
pub mod Versions
use blog_be.Prelude.{
  ℕ, String, ◌≡◌, ◌≢◌, Bool, true, false, ◌&&◌, ◌||◌, Option, some, none, List, ◌∷◌, map, ◌==◌,
  nat_eq, string_eq, if◌then◌else◌,
}
use blog_be.Prelude.Table.{has, update}
use blog_be.Auth.Repository.{
  Admin, Accounts, RefreshToken, active, rotated, revoked, admin_key, token_key, get_admin,
  get_refresh_token, is_claimable, mark, bump_version,
}

-- What one call of `refresh` works with: the claims of its token, the drawn id of the new one, and the
-- times.
pub record Attempt : Type 0 where
  pub jti : String
  pub tv : ℕ
  pub new_jti : String
  pub db_now : ℕ
  pub expires_at : ℕ

-- Where a request stands. What its transaction has written and not committed follows from it.
pub data Pc : Type 0 where
  ready : Attempt → Pc  -- `refresh`, before its first statement
  leaving : Pc  -- `logout`, before its first statement
  checked : Attempt → Pc  -- the admin is at the version of the token
  claimed : Attempt → Pc  -- the UPDATE of the claim returned the row
  recorded : Attempt → Pc  -- the new row is inserted
  won : Attempt → Pc  -- committed, the new pair is returned
  lost : Attempt → Pc  -- the claim returned no row
  reused : Attempt → Pc  -- the row was read, and it is rotated
  bumped : Pc  -- the version of the admin is raised
  swept : (String → Bool) → Pc  -- rows are set to revoked
  killed : Pc  -- that is committed
  refused : Pc  -- rolled back, 401

-- the rows of `refresh_tokens` that an open transaction has written
abbrev pub locks : Pc → String → Bool
locks (ready a) r = false
locks leaving r = false
locks (checked a) r = false
locks (claimed a) r = r == a.jti
locks (recorded a) r = r == a.jti || r == a.new_jti
locks (won a) r = false
locks (lost a) r = false
locks (reused a) r = false
locks bumped r = false
locks (swept rows) r = rows r
locks killed r = false
locks refused r = false

-- the same for the admin's row
abbrev pub locks_admin : Pc → Bool
locks_admin bumped = true
locks_admin (swept rows) = true
locks_admin _ = false

-- the request has its answer
abbrev pub is_done : Pc → Bool
is_done (won a) = true
is_done killed = true
is_done refused = true
is_done _ = false

pub record System : Type 0 where
  pub db : Accounts
  pub pc : ℕ → Pc

abbrev pub set_pc : (ℕ → Pc) → ℕ → Pc → ℕ → Pc
set_pc pc i p j = if j == i then p else pc j

-- no open transaction but that of `i` has written the row
abbrev pub Free : System → ℕ → String → Type 0
Free s i r = (j : ℕ) → j ≢ i → locks (s.pc j) r ≡ false

abbrev pub AdminFree : System → ℕ → Type 0
AdminFree s i = (j : ℕ) → j ≢ i → locks_admin (s.pc j) ≡ false

module _ (subject : String) where
  -- the commit of a claim and of the new row
  unfoldable pub commit_exchange : Attempt → Accounts → Accounts
  commit_exchange a d = record d {
    refresh_tokens =
        record {
          jti = a.new_jti;
          subject = subject;
          status = active;
          created_at = a.db_now;
          expires_at = a.expires_at;
        }
        ∷ update token_key a.jti (mark rotated) d.refresh_tokens;
  }

  -- the rows of the subject that are among `rows`
  abbrev pub sweep : (String → Bool) → List RefreshToken → List RefreshToken
  sweep rows tokens =
      map (λ t. if t.subject == subject && rows t.jti then mark revoked t else t) tokens

  -- the commit of a raised version and of the revoked rows
  unfoldable pub commit_kill : (String → Bool) → Accounts → Accounts
  commit_kill rows d = record {
    admins = update admin_key subject bump_version d.admins;
    refresh_tokens = sweep rows d.refresh_tokens;
  }

  -- One statement or commit of one request. The rows that the UPDATE of `revoke_refresh_tokens` finds
  -- are those of its snapshot: any set, since a row that is committed while it waits is not among them.
  -- A key is inserted at most once: an INSERT waits for one of the same key, and fails on one that is
  -- there. A transaction that has not committed may be rolled back at any time: by a lock timeout, a
  -- deadlock or a lost connection.
  pub data Step (s : System) : System → Type 0 where
    check_passes :
        (i : ℕ) (a : Attempt) (admin : Admin)
        → s.pc i ≡ ready a
        → get_admin subject s.db ≡ some admin
        → admin.token_version ≡ a.tv
        → Step s (record s { pc = set_pc s.pc i (checked a) })
    check_fails :
        (i : ℕ) (a : Attempt)
        → s.pc i ≡ ready a
        → ((admin : Admin) → get_admin subject s.db ≡ some admin → admin.token_version ≢ a.tv)
        → Step s (record s { pc = set_pc s.pc i refused })
    claim :
        (i : ℕ) (a : Attempt) (row : RefreshToken)
        → s.pc i ≡ checked a
        → Free s i a.jti
        → get_refresh_token a.jti s.db ≡ some row
        → is_claimable a.db_now row ≡ true
        → Step s (record s { pc = set_pc s.pc i (claimed a) })
    claim_nothing :
        (i : ℕ) (a : Attempt)
        → s.pc i ≡ checked a
        → ((row : RefreshToken)
            → get_refresh_token a.jti s.db ≡ some row
            → is_claimable a.db_now row ≡ false)
        → Step s (record s { pc = set_pc s.pc i (lost a) })
    insert_row :
        (i : ℕ) (a : Attempt)
        → s.pc i ≡ claimed a
        → Free s i a.new_jti
        → has token_key a.new_jti s.db.refresh_tokens ≡ false
        → Step s (record s { pc = set_pc s.pc i (recorded a) })
    insert_fails :
        (i : ℕ) (a : Attempt)
        → s.pc i ≡ claimed a
        → has token_key a.new_jti s.db.refresh_tokens ≡ true
        → Step s (record s { pc = set_pc s.pc i refused })
    exchange :
        (i : ℕ) (a : Attempt)
        → s.pc i ≡ recorded a
        → Step s (record { db = commit_exchange a s.db; pc = set_pc s.pc i (won a) })
    find_rotated :
        (i : ℕ) (a : Attempt) (row : RefreshToken)
        → s.pc i ≡ lost a
        → get_refresh_token a.jti s.db ≡ some row
        → row.status ≡ rotated
        → Step s (record s { pc = set_pc s.pc i (reused a) })
    find_other :
        (i : ℕ) (a : Attempt)
        → s.pc i ≡ lost a
        → ((row : RefreshToken) → get_refresh_token a.jti s.db ≡ some row → row.status ≢ rotated)
        → Step s (record s { pc = set_pc s.pc i refused })
    bump :
        (i : ℕ) (a : Attempt)
        → s.pc i ≡ reused a
        → AdminFree s i
        → Step s (record s { pc = set_pc s.pc i bumped })
    bump_logout :
        (i : ℕ) → s.pc i ≡ leaving → AdminFree s i → Step s (record s { pc = set_pc s.pc i bumped })
    revoke :
        (i : ℕ) (rows : String → Bool)
        → s.pc i ≡ bumped
        → ((r : String) → rows r ≡ true → Free s i r)
        → Step s (record s { pc = set_pc s.pc i (swept rows) })
    kill :
        (i : ℕ) (rows : String → Bool)
        → s.pc i ≡ swept rows
        → Step s (record { db = commit_kill rows s.db; pc = set_pc s.pc i killed })
    abort : (i : ℕ) → is_done (s.pc i) ≡ false → Step s (record s { pc = set_pc s.pc i refused })

  -- a run of the requests in any order
  pub data Run (s : System) : System → Type 0 where
    here : Run s s
    next : {t u : System} → Run s t → Step t u → Run s u

-- no request has started
abbrev pub is_fresh : Pc → Bool
is_fresh (ready a) = true
is_fresh leaving = true
is_fresh _ = false

-- ===== src/App/Store.antt =====
-- The database of the application, and the code of one component run on it.
use blog_be.Prelude.{none, some, List}
use blog_be.Exec.{Exec}
use blog_be.Session.{Session, view}
use blog_be.Auth.Repository.{Accounts}
use blog_be.Database.{Blog}
use blog_be.Content.{SiteContent}

-- the tables of all components, where a content document is of type `C`
pub record Store (C : Type 0) : Type 0 where
  pub accounts : Accounts
  pub blog : Blog
  pub contents : List (SiteContent C)

module _ {C : Type 0} where
  abbrev pub put_accounts : Accounts → Store C → Store C
  put_accounts accounts d = record d { accounts = accounts }

  abbrev pub accounts_of : Session (Store C) → Session Accounts
  accounts_of s = record {
    committed = s.committed.accounts;
    working = elim s.working [ none ↦ none | some d ↦ some d.accounts ];
  }

  abbrev pub with_accounts : Session Accounts → Session (Store C) → Session (Store C)
  with_accounts t s = record {
    committed = put_accounts t.committed s.committed;
    working = elim t.working [ none ↦ none | some a ↦ some (put_accounts a (view s)) ];
  }

module _ {C A : Type 0} where
  -- Statements on the tables of one component leave the others as they are.
  abbrev pub on_accounts : Exec Accounts A → Exec (Store C) A
  on_accounts m d = let (r, accounts) = m d.accounts in (r, record d { accounts = accounts })

  abbrev pub on_blog : Exec Blog A → Exec (Store C) A
  on_blog m d = let (r, blog) = m d.blog in (r, record d { blog = blog })

  abbrev pub on_contents : Exec (List (SiteContent C)) A → Exec (Store C) A
  on_contents m d = let (r, contents) = m d.contents in (r, record d { contents = contents })

  -- Code that begins or ends the transaction itself and touches the accounts only, on a session whose
  -- transaction has written nothing else.
  abbrev pub in_accounts : Exec (Session Accounts) A → Exec (Session (Store C)) A
  in_accounts m s = let (r, t) = m (accounts_of s) in (r, with_accounts t s)

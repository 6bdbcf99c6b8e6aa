-- ===== src/App/Validity.antt =====
-- The constraints of all tables, over any history of requests.
use blog_be.Prelude.{List}
use blog_be.Auth.Validity.{IsAccounts, IsAccounts-IsStable}
use blog_be.Content.Laws.{IsContents}
use blog_be.Content.Keeps.{upsert-IsContents}
use blog_be.Database.{IsValid}
use blog_be.Post.Writes.Requests.{perform-IsSafe}
use blog_be.App.Store.{Store}
use blog_be.App.Handlers.{World, Call, State}
use blog_be.App.Kept.{Holds, handle_all, handle_all-Kept}

-- the primary and foreign keys of every table hold, and the keys of the contents are well formed
abbrev pub IsStore : {C : Type 0} → Store C → Type 0
IsStore d = Holds IsAccounts IsValid IsContents d

module _ {C K P : Type 0} (w : World C K P) where
  -- However many requests are answered one after the other, to whatever endpoints, admitted or not and
  -- failing or not, the constraints of all tables hold afterwards if they held before.
  pub handle_all-IsStore :
      (calls : List (Call C)) (st : State C K)
      → IsStore st.db.committed
      → IsStore (handle_all w calls st).db.committed
  handle_all-IsStore calls st v =
      handle_all-Kept w IsAccounts IsValid IsContents IsAccounts-IsStable
        (λ env write b valid. (perform-IsSafe env write b valid).valid) (upsert-IsContents w.json)
        calls st v

-- ===== src/App/History.antt =====
-- The posts of the application over a history of requests.
use blog_be.Prelude.{◌≡◌, refl, sym, ◌∙◌, ap, Bool, true, false, Option, none, some, List, [], ◌∷◌}
use blog_be.Platform.{Platform}
use blog_be.Database.{Blog}
use blog_be.Post.Writes.Requests.{Write, serve}
use blog_be.Post.Site.{replay}
use blog_be.Post.Site.View.{view}
use blog_be.Post.Site.Refines.{serve_refines}
use blog_be.App.Handlers.{World, Call, State}
use blog_be.App.Serve.{handle}
use blog_be.App.Posts.{write_of, after_write, is_accepted, handle-blog}
use blog_be.App.Kept.{handle_all}
use blog_be.App.Validity.{IsStore}

-- the write in front of the later ones, if there is one and it is accepted
abbrev pub with_write :
    Platform → Option Write → Bool → List (Platform × Write) → List (Platform × Write)
with_write env none accepted rest = rest
with_write env (some write) true rest = (env, write) ∷ rest
with_write env (some write) false rest = rest

serve-with_write :
    (env : Platform) (write : Option Write) (accepted : Bool) (rest : List (Platform × Write))
    (b : Blog)
    → serve (with_write env write accepted rest) b ≡ serve rest (after_write env write accepted b)
serve-with_write env none accepted rest b = refl
serve-with_write env (some write) true rest b = refl
serve-with_write env (some write) false rest b = refl

module _ {C K P : Type 0} (w : World C K P) where
  -- the accepted writes of a history, each with the clocks of its request
  abbrev pub accepted_writes : List (Call C) → State C K → List (Platform × Write)
  accepted_writes [] st = []
  accepted_writes (call ∷ calls) st =
      with_write call.env (write_of call.endpoint) (is_accepted w call st)
        (accepted_writes calls (handle w call st).1)

  handle_all-blog :
      (calls : List (Call C)) (st : State C K)
      → (handle_all w calls st).db.committed.blog
        ≡ serve (accepted_writes calls st) st.db.committed.blog
  handle_all-blog [] st = refl
  handle_all-blog (call ∷ calls) st =
      handle_all-blog calls (handle w call st).1
      ∙ ap (serve (accepted_writes calls (handle w call st).1)) (handle-blog w call st)
      ∙ sym (
          serve-with_write call.env (write_of call.endpoint) (is_accepted w call st)
            (accepted_writes calls (handle w call st).1) st.db.committed.blog)

  -- After any history of requests to the application, from a store whose constraints hold, the site is
  -- the one that the steps of the accepted writes give, in their order: a post has under its id the
  -- columns and the set of tags that the requests gave it, and no other request shows in it.
  pub handle_all_refines :
      (calls : List (Call C)) (st : State C K)
      → IsStore st.db.committed
      → view (handle_all w calls st).db.committed.blog
        ≡ replay (accepted_writes calls st) (view st.db.committed.blog)
  handle_all_refines calls st v =
      ap view (handle_all-blog calls st)
      ∙ serve_refines (accepted_writes calls st) st.db.committed.blog v.blog

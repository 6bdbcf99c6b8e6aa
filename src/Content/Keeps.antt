-- ===== src/Content/Keeps.antt =====
-- Every run of PUT requests keeps the keys of the stored rows unique and well formed.
use blog_be.Prelude.{ℕ, String, ◌≡◌, true, List, [], ◌∷◌, Bool-cases, Option-cases, inl, inr}
use blog_be.Exec.{Result, ok, err, or_raise}
use blog_be.Exec.Keeps.{bind-Keeps, or_raise-Keeps, raise_if-Keeps}
use blog_be.Session.Laws.{settled}
use blog_be.Server.Http.{codes}
use blog_be.Content.{
  Json, SiteContent, is_key, execute_upsert, upsert_row, check_content, upsert, put_content,
}
use blog_be.Content.Laws.{key_fits, IsContents, write_row-IsContents}
use blog_be.Content.Puts.{put_content_lem, put_invalid}

module _ {C : Type 0} (json : Json C) where
  pub settled-IsContents :
      {A : Type 0} (rows : List (SiteContent C)) (x : Result A × List (SiteContent C))
      → IsContents rows
      → IsContents x.1
      → IsContents (settled rows x).1
  settled-IsContents rows (ok a, rows') v h = h
  settled-IsContents rows (err e, rows') v h = v

  execute_upsert-IsContents :
      (now : ℕ) (key : String) (content : C) (rows : List (SiteContent C))
      → is_key (codes key) ≡ true
      → IsContents rows
      → IsContents (execute_upsert json now key content rows).1
  unfolding execute_upsert
  execute_upsert-IsContents now key content rows k v =
      rw (key_fits (codes key) k) (elim (Option-cases (json.jsonb content)) [
        | inl refused ↦ rw refused v
        | inr (stored, e) ↦ rw e (write_row-IsContents now key stored rows k v)
      ])

  pub upsert-IsContents :
      (now : ℕ) (key : String) (content : C) (rows : List (SiteContent C))
      → is_key (codes key) ≡ true
      → IsContents rows
      → IsContents (upsert json now key content rows).1
  unfolding upsert check_content upsert_row
  upsert-IsContents now key content rows k v =
      bind-Keeps IsContents (check_content json content rows) _
        (bind-Keeps IsContents (or_raise (json.dumps content) _ rows) _
          (or_raise-Keeps IsContents _ _ rows v)
          λ text s w.
            bind-Keeps IsContents (or_raise (json.encode text) _ s) _
              (or_raise-Keeps IsContents _ _ s w) λ bytes t x. raise_if-Keeps IsContents _ _ t x)
        λ _ s w.
          bind-Keeps IsContents (upsert_row json now key content s) _
            (bind-Keeps IsContents (execute_upsert json now key content s) _
              (execute_upsert-IsContents now key content s k w)
              λ _ t x. or_raise-Keeps IsContents _ _ t x)
            λ row t x. x

  put_content-IsContents :
      (now : ℕ) (key : String) (content : C) (rows : List (SiteContent C))
      → IsContents rows
      → IsContents (put_content json now key content rows).1
  put_content-IsContents now key content rows v = elim (Bool-cases (is_key (codes key))) [
    | inl k ↦ rw (put_content_lem json now key content rows k) (
        settled-IsContents rows (upsert json now key content rows) v
          (upsert-IsContents now key content rows k v))
    | inr bad ↦ rw (put_invalid json now key content rows bad) v
  ]

  -- PUT requests one after the other, each at its time
  abbrev pub serve_puts : List (ℕ × String × C) → List (SiteContent C) → List (SiteContent C)
  serve_puts [] rows = rows
  serve_puts ((now, key, content) ∷ rest) rows =
      serve_puts rest (put_content json now key content rows).1

  -- However many PUT requests are served, accepted or not, the table has one row for a key, and each
  -- key is one that the routes accept.
  serve_puts-IsContents :
      (requests : List (ℕ × String × C)) (rows : List (SiteContent C))
      → IsContents rows
      → IsContents (serve_puts requests rows)
  serve_puts-IsContents [] rows v = v
  serve_puts-IsContents ((now, key, content) ∷ rest) rows v =
      serve_puts-IsContents rest (put_content json now key content rows).1
        (put_content-IsContents now key content rows v)

-- ===== src/Tests/ContentTests.antt =====
-- Documents under a key. A document of the tests is a text, and "NaN" is the one that JSON refuses.
use blog_be.Prelude.{
  ==_ne, ℕ, String, ◌≡◌, refl, none, some, List, [], ◌∷◌, ◌==◌, string_eq, if◌then◌else◌, arith,
  inl, inr,
}
use blog_be.Error.{validation_error}
use blog_be.Exec.{ok, err}
use blog_be.Session.{sqlalchemy_middleware, transactional, begin, execute}
use blog_be.Server.Http.{codes}
use blog_be.Content.{
  Json, SiteContent, validate_key, find_content, write_row, get_content, execute_upsert, upsert_row,
  check_content, upsert, put_content,
}
use blog_be.Content.Laws.{IsContents}
use blog_be.Content.Puts.{IsAccepted, put_stores, put_refuses}
use blog_be.Content.Keeps.{serve_puts}

abbrev pub text_json : Json String
text_json = record {
  dumps = λ text. if text == "NaN" then none else some text;
  encode = λ text. some (codes text);
  jsonb = λ text. some text;
}

abbrev pub about_row : SiteContent String
about_row = record { key = "about"; content = "hello"; updated_at = 1 }

-- of two PUT requests, the first has a key that is refused
abbrev two_puts : List (ℕ × String × String)
two_puts = (1, "About", "never") ∷ (2, "about", "again") ∷ []

two_puts_rows :
    serve_puts text_json two_puts (about_row ∷ [])
    ≡ record { key = "about"; content = "again"; updated_at = 2 } ∷ []
unfolding put_content sqlalchemy_middleware validate_key transactional begin execute upsert
    check_content upsert_row execute_upsert find_content write_row
two_puts_rows = refl

pub about_rows-IsContents : IsContents (about_row ∷ [])
about_rows-IsContents = record { unique = (refl, tt); keys = (refl, tt) }

links_IsAccepted : IsAccepted text_json 5 "links" "two" "two"
links_IsAccepted = record {
  key_matches = refl;
  text = "two";
  dumped = refl;
  bytes = codes "two";
  encoded = refl;
  small = omega arith;
  taken = refl;
}

put_stores_example :
    ((put_content text_json 5 "links" "two" (about_row ∷ [])).0
      ≡ ok (record { key = "links"; content = "two"; updated_at = 5 }))
    × (get_content "links" (put_content text_json 5 "links" "two" (about_row ∷ [])).1 ≡ (
      (put_content text_json 5 "links" "two" (about_row ∷ [])).0,
      (put_content text_json 5 "links" "two" (about_row ∷ [])).1,
    ))
    × ((get_content "about" (put_content text_json 5 "links" "two" (about_row ∷ [])).1).0
        ≡ (get_content "about" (about_row ∷ [])).0)
put_stores_example =
    put_stores text_json 5 "links" "two" (about_row ∷ []) "about" {stored = "two"} links_IsAccepted
      (==_ne "about" "links" refl)

put_refuses_example :
    (message : String) × (put_content text_json 5 "links" "NaN" (about_row ∷ [])
      ≡ (err (validation_error message), about_row ∷ []))
put_refuses_example = put_refuses text_json 5 "links" "NaN" (about_row ∷ []) (inr (inl refl))

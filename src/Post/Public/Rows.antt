-- ===== src/Post/Public/Rows.antt =====
-- Rows of published posts under the parts of a query.
use blog_be.Prelude.{
  ℕ, zero, suc, String, ◌≡◌, Bool, true, not, some, List, [], ◌∷◌, ◌==◌, string_eq, filter, take,
  drop, All, All-map, All-filter, All-filter_self, Bool-cases, inl, inr, arith,
}
use blog_be.Prelude.Table.{lookup}
use blog_be.Prelude.Sort.{sort, All-sort}
use blog_be.Query.{page_of, unique}
use blog_be.Database.{Post, Blog, IsValid, post_key, status_eq}
use blog_be.Post.Repository.{is_published}
use blog_be.Post.Nav.{IsRow, lookup_self}

module _ (b : Blog) where
  abbrev pub IsPublicRow : Post → Type 0
  IsPublicRow p = (IsRow b p) × (is_published p ≡ true)

  pub rows_published :
      (posts : List Post)
      → All (IsRow b) posts
      → All (λ p. is_published p ≡ true) posts
      → All IsPublicRow posts
  rows_published [] h k = tt
  rows_published (p ∷ posts) h k = ((h.0, k.0), rows_published posts h.1 k.1)

  -- the posts of the table that a test chooses which only published posts pass
  pub chosen_rows :
      (chosen : Post → Bool)
      → IsValid b
      → ((p : Post) → chosen p ≡ true → is_published p ≡ true)
      → All IsPublicRow (filter chosen b.posts)
  chosen_rows chosen v only =
      rows_published (filter chosen b.posts)
        (All-filter (IsRow b) chosen b.posts (lookup_self b.posts v.posts_unique))
        (All-map _ _ only (filter chosen b.posts) (All-filter_self chosen b.posts))

  take-rows : (n : ℕ) (posts : List Post) → All IsPublicRow posts → All IsPublicRow (take n posts)
  take-rows zero posts h = tt
  take-rows (suc n) [] h = tt
  take-rows (suc n) (p ∷ posts) h = (h.0, take-rows n posts h.1)

  drop-rows : (n : ℕ) (posts : List Post) → All IsPublicRow posts → All IsPublicRow (drop n posts)
  drop-rows zero posts h = h
  drop-rows (suc n) [] h = tt
  drop-rows (suc n) (p ∷ posts) h = drop-rows n posts h.1

  pub unique-rows : (posts : List Post) → All IsPublicRow posts → All IsPublicRow (unique posts)
  unique-rows [] h = tt
  unique-rows (p ∷ posts) h =
      (h.0, All-filter IsPublicRow (λ q. not (q.id == p.id)) (unique posts) (unique-rows posts h.1))

  pub page-rows :
      (page page_size : ℕ) (le : Post → Post → Bool) (posts : List Post)
      → All IsPublicRow posts
      → All IsPublicRow (unique (page_of page page_size (sort le posts)))
  unfolding page_of
  page-rows page page_size le posts h =
      unique-rows _ (take-rows page_size _ (drop-rows _ _ (All-sort le IsPublicRow posts h)))

pub All-found :
    (P : Post → Type 0) (id : String) (posts : List Post) (p : Post)
    → lookup post_key id posts ≡ some p
    → All P posts
    → P p
All-found P id [] p e h = absurd (cc)
All-found P id (r ∷ posts) p e h = elim (Bool-cases (r.id == id)) [
  | inl hit ↦ let same : r ≡ p = ground arith in rw (← same) h.0
  | inr miss ↦ All-found P id posts p (ground arith) h.1
]

-- ===== src/Post/Listing/Found.antt =====
-- What `search` returns, by a description of the posts found and of their ranks that does not speak of
-- the code's WHERE clause, its score and its ORDER BY.
use mathlib.Core.Path.{subst}
use blog_be.Prelude.{
  ℕ, ◌+◌, String, ◌≡◌, refl, Bool, ◌&&◌, ◌||◌, Option, none, some, List, [], ◌∷◌, ◌==◌, nat_eq,
  filter, arith, ltb, if◌then◌else◌, Option-cases, inl, inr,
}
use blog_be.Prelude.Sort.{IsOrder, sort}
use blog_be.Platform.{Platform, IsCollation}
use blog_be.Query.Order.{desc_by-IsOrder, asc_by-IsOrder}
use blog_be.Database.{Post, Blog, published, status_eq, post_key, IsValid}
use blog_be.Post.Repository.{search_posts, search_pattern, score, is_hit, order_search}
use blog_be.Post.Listing.{IsListing, sorted_filter-IsListing}

-- a text of a post that the search reads, and what a match of it is worth
pub record SearchedText : Type 0 where
  pub worth : ℕ
  pub text : String

abbrev pub content_texts : Option String → List SearchedText
content_texts none = []
content_texts (some content) = record { worth = 1; text = content } ∷ []

abbrev pub searched_texts : Post → List SearchedText
searched_texts p =
    record { worth = 3; text = p.title }
    ∷ record { worth = 2; text = p.excerpt }
    ∷ content_texts p.content

-- the worth of the texts that satisfy a test
abbrev pub worth_of : (String → Bool) → List SearchedText → ℕ
worth_of test [] = 0
worth_of test (t ∷ texts) = (if test t.text then t.worth else 0) + worth_of test texts

module _ (test : String → Bool) where
  abbrev pub relevance : Post → ℕ
  relevance p = worth_of test (searched_texts p)

  -- a published post with a text that satisfies the test
  abbrev pub is_found : Post → Bool
  is_found p = p.status == published && ltb 0 (relevance p)

  -- the more relevant post first, then the later one, then the one with the lesser id
  abbrev pub ranks_before : Platform → Post → Post → Bool
  ranks_before env p q =
      ltb (relevance q) (relevance p)
      || (relevance p == relevance q
          && (ltb q.date p.date || (p.date == q.date && env.text_le p.id q.id)))

module _ (env : Platform) (ilike : List ℕ → String → Bool) (pattern : List ℕ) where
  relevance-eq : (p : Post) → relevance (ilike pattern) p ≡ score env ilike pattern p
  relevance-eq p = elim (Option-cases p.content) [
    | inl absent ↦ rw absent (omega arith)
    | inr (content, present) ↦ rw present (omega arith)
  ]

  is_found-eq : (p : Post) → is_hit env ilike pattern p ≡ is_found (ilike pattern) p
  is_found-eq p = elim (Option-cases p.content) [
    | inl absent ↦ rw absent (ground arith)
    | inr (content, present) ↦ rw present (ground arith)
  ]

  ranks_before-eq :
      (p q : Post) → order_search env ilike pattern p q ≡ ranks_before (ilike pattern) env p q
  ranks_before-eq p q = ground (arith, relevance-eq p, relevance-eq q)

module _ (env : Platform) (col : IsCollation env.text_le) where
  order_search-IsOrder :
      (ilike : List ℕ → String → Bool) (pattern : List ℕ) → IsOrder (order_search env ilike pattern)
  order_search-IsOrder ilike pattern =
      desc_by-IsOrder (score env ilike pattern) _
        (desc_by-IsOrder (λ p. p.date) _ (asc_by-IsOrder post_key col.order))

  -- On a valid database the search returns a page of one list, and the number of its posts. The list
  -- has exactly the published posts of which the title, the excerpt or the content, if there is one,
  -- matches the pattern of the query; it is sorted by relevance, where a match of the title counts 3, of
  -- the excerpt 2 and of the content 1, then by date, the newest first, and then by id.
  pub search_posts-IsListing :
      (b : Blog) (page page_size : ℕ) (ilike : List ℕ → String → Bool) (q : List ℕ)
      → IsValid b
      → let found = is_found (ilike (search_pattern q)) in
        let ranks = ranks_before (ilike (search_pattern q)) env in
        IsListing ranks found b page page_size
          (search_posts env ilike q page page_size b)
          (sort ranks (filter found b.posts))
  unfolding search_posts
  search_posts-IsListing b page page_size ilike q v =
      let pattern = search_pattern q in
      let hits : is_hit env ilike pattern ≡ is_found (ilike pattern) =
        λ i p. is_found-eq env ilike pattern p i in
      let order : order_search env ilike pattern ≡ ranks_before (ilike pattern) env =
        λ i p r. ranks_before-eq env ilike pattern p r i in
      subst
        (λ le.
          IsListing le (is_found (ilike pattern)) b page page_size
            (search_posts env ilike q page page_size b)
            (sort le (filter (is_found (ilike pattern)) b.posts)))
        order
        (subst
          (λ chosen.
            IsListing (order_search env ilike pattern) chosen b page page_size
              (search_posts env ilike q page page_size b)
              (sort (order_search env ilike pattern) (filter chosen b.posts)))
          hits
          (sorted_filter-IsListing b v page page_size _ (order_search-IsOrder ilike pattern)
            (is_hit env ilike pattern) (filter (is_hit env ilike pattern) b.posts) refl))

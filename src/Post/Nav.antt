-- ===== src/Post/Nav.antt =====
-- `get_nav`: the neighbours of a post among the published posts, by date and then by id.
pub mod Inverse
pub mod Nearest
use mathlib.Core.Path.{subst}
use blog_be.Prelude.{
  ℕ, String, ◌≡◌, ◌≢◌, refl, ◌∙◌, ap, sym, Bool, true, false, not, ◌&&◌, ◌||◌, Option, none, some,
  List, [], ◌∷◌, ◌==◌, string_eq, nat_eq, filter, All, All-map, All-filter, All-filter_self, arith,
  ltb, if◌then◌else◌, Bool-cases, Option-cases, inl, inr,
}
use blog_be.Prelude.Table.{lookup, has, IsUnique, lookup-eq_none}
use blog_be.Prelude.Sort.{IsOrder, sort, insert, IsSorted, sort-IsSorted, All-sort}
use blog_be.Platform.{Platform, IsCollation}
use blog_be.Query.{desc_by}
use blog_be.Query.Order.{desc_by-IsOrder, asc_by-IsOrder}
use blog_be.Database.{Post, Blog, post_key, IsValid, PostStatus, status_eq}
use blog_be.Post.Repository.{
  is_published, is_older, is_newer, newest_first, oldest_first, first_row, get_nav,
}

module _ (le : Post → Post → Bool) where
  All-of_insert :
      (P : Post → Type 0) (x : Post) (xs : List Post) → All P (insert le x xs) → P x × All P xs
  All-of_insert P x [] h = h
  All-of_insert P x (y ∷ ys) h = ground (arith, All-of_insert P x ys)

  All-of_sort : (P : Post → Type 0) (xs : List Post) → All P (sort le xs) → All P xs
  All-of_sort P [] h = tt
  All-of_sort P (x ∷ xs) h =
      let step : P x × All P (sort le xs) = All-of_insert P x (sort le xs) h in
      (step.0, All-of_sort P xs step.1)

first_row-All :
    (P : Post → Type 0) (rows : List Post) {q : Post} → first_row rows ≡ some q → All P rows → P q
first_row-All P [] e h = absurd (cc)
first_row-All P (r ∷ rows) {q = q} e h = let same : r ≡ q = cc in rw (← same) h.0

-- The row that ORDER BY … LIMIT 1 gives is below every row.
module _ (le : Post → Post → Bool) (o : IsOrder le) where
  le_refl : (p : Post) → le p p ≡ true
  le_refl p = ground (arith, o.total p p)

  first_row-least :
      (rows : List Post) {q : Post}
      → first_row rows ≡ some q
      → IsSorted le rows
      → All (λ r. le q r ≡ true) rows
  first_row-least [] e h = tt
  first_row-least (r ∷ rows) {q = q} e h =
      let same : r ≡ q = cc in
      subst (λ x. All (λ y. le x y ≡ true) (r ∷ rows)) same (le_refl r, h.0)

  pub first-least :
      (rows : List Post) {q : Post}
      → first_row (sort le rows) ≡ some q
      → All (λ r. le q r ≡ true) rows
  first-least rows {q = q} e =
      All-of_sort le (λ r. le q r ≡ true) rows
        (first_row-least (sort le rows) e (sort-IsSorted le o rows))

  first_row-none : (P : Post → Type 0) (rows : List Post) → first_row rows ≡ none → All P rows
  first_row-none P [] e = tt
  first_row-none P (r ∷ rows) e = absurd (cc)

  pub first-none :
      (P : Post → Type 0) (rows : List Post) → first_row (sort le rows) ≡ none → All P rows
  first-none P rows e = All-of_sort le P rows (first_row-none P (sort le rows) e)

-- What holds of every chosen row holds of a chosen row of the table.
All-lookup :
    (P : Post → Type 0) (chosen : Post → Bool) (id : String) (posts : List Post) {p : Post}
    → All P (filter chosen posts)
    → lookup post_key id posts ≡ some p
    → chosen p ≡ true
    → P p
All-lookup P chosen id [] h e c = absurd (cc)
All-lookup P chosen id (r ∷ posts) {p = p} h e c = elim (Bool-cases (r.id == id)) [
  | inl hit ↦
      let same : r ≡ p = ground arith in
      rw (← same) (let now : chosen r ≡ true = rw same c in ground arith)
  | inr miss ↦
      All-lookup P chosen id posts {p = p}
        (elim (Bool-cases (chosen r)) [ inl t ↦ ground arith | inr f ↦ ground arith ])
        (ground arith) c
]

found_behind :
    (r : Post) (posts rows : List Post)
    → All (λ p. lookup post_key p.id posts ≡ some p) rows
    → has post_key r.id rows ≡ false
    → All (λ p. lookup post_key p.id (r ∷ posts) ≡ some p) rows
found_behind r posts [] h fresh = tt
found_behind r posts (p ∷ rows) h fresh =
    ground (
      arith,
      found_behind r posts rows h.1,
      string_eq.beq_iff p.id r.id,
      string_eq.beq_iff r.id p.id,
    )

-- Every row of a table with unique ids is found by its id.
pub lookup_self :
    (posts : List Post)
    → IsUnique post_key posts
    → All (λ p. lookup post_key p.id posts ≡ some p) posts
lookup_self [] u = tt
lookup_self (r ∷ posts) u = (
  ground (arith, string_eq.beq_iff r.id r.id),
  found_behind r posts posts (lookup_self posts u.1) u.0,
)

module _ (env : Platform) (col : IsCollation env.text_le) where
  pub newest_first-IsOrder : IsOrder (newest_first env)
  newest_first-IsOrder = desc_by-IsOrder (λ p. p.date) _ (asc_by-IsOrder post_key col.order)

  pub oldest_first-IsOrder : IsOrder (oldest_first env)
  oldest_first-IsOrder = record {
    total = λ p q h. ground (arith, col.order.total q.id p.id);
    trans = λ p q r h k. ground (arith, col.order.trans r.id q.id p.id);
  }

  -- The three facts about two posts that turn an older neighbour into a newer one.
  pub newer_of_older :
      (p q : Post) → is_published p ≡ true → is_older env p q ≡ true → is_newer env q p ≡ true
  newer_of_older p q pub_p h =
      ground (arith, string_eq.beq_iff p.id q.id, string_eq.beq_iff q.id p.id)

  pub older_of_newer :
      (p q : Post) → is_published p ≡ true → is_newer env p q ≡ true → is_older env q p ≡ true
  older_of_newer p q pub_p h =
      ground (arith, string_eq.beq_iff p.id q.id, string_eq.beq_iff q.id p.id)

  -- between a post and its nearest older one there is no third
  pub no_post_between_newer :
      (p q r : Post)
      → is_newer env q r ≡ true
      → oldest_first env r p ≡ true
      → (is_older env p r ≡ true → newest_first env q r ≡ true)
      → r.id ≡ p.id
  no_post_between_newer p q r newer before least = ground (
    arith,
    col.antisymm q.id r.id,
    string_eq.beq_iff r.id p.id,
    string_eq.beq_iff p.id r.id,
    string_eq.beq_iff r.id q.id,
  )

  pub no_post_between_older :
      (p q r : Post)
      → is_older env q r ≡ true
      → newest_first env r p ≡ true
      → (is_newer env p r ≡ true → oldest_first env q r ≡ true)
      → r.id ≡ p.id
  no_post_between_older p q r older before least = ground (
    arith,
    col.antisymm q.id r.id,
    string_eq.beq_iff r.id p.id,
    string_eq.beq_iff p.id r.id,
    string_eq.beq_iff r.id q.id,
    string_eq.beq_iff q.id r.id,
  )

All-both :
    (P Q : Post → Type 0) (rows : List Post) → All P rows → All Q rows → All (λ r. P r × Q r) rows
All-both P Q [] h k = tt
All-both P Q (r ∷ rows) h k = ((h.0, k.0), All-both P Q rows h.1 k.1)

abbrev pub IsRow : Blog → Post → Type 0
IsRow b p = lookup post_key p.id b.posts ≡ some p

pub same_row : (b : Blog) (p r : Post) → IsRow b p → IsRow b r → r.id ≡ p.id → r ≡ p
same_row b p r row_p row_r e =
    let found : some r ≡ some p =
      sym row_r ∙ ap (λ (id : String). lookup post_key id b.posts) e ∙ row_p in
    cc

module _ (b : Blog) (v : IsValid b) (le : Post → Post → Bool) (chosen : Post → Bool) where
  -- what `ORDER BY … LIMIT 1` returns is a chosen row of the table
  pub first-IsRow :
      {q : Post}
      → first_row (sort le (filter chosen b.posts)) ≡ some q
      → (IsRow b q) × (chosen q ≡ true)
  first-IsRow {q} e =
      first_row-All (λ r. (IsRow b r) × (chosen r ≡ true)) (sort le (filter chosen b.posts)) e
        (All-sort le _ (filter chosen b.posts) (
          All-both (IsRow b) (λ r. chosen r ≡ true) (filter chosen b.posts)
            (All-filter (IsRow b) chosen b.posts (lookup_self b.posts v.posts_unique))
            (All-filter_self chosen b.posts)))

  -- and it is below every chosen row of the table
  pub first-below :
      IsOrder le
      → {q r : Post} → first_row (sort le (filter chosen b.posts)) ≡ some q
      → IsRow b r
      → chosen r ≡ true
      → le q r ≡ true
  first-below o {q} {r} e row c =
      All-lookup (λ x. le q x ≡ true) chosen r.id b.posts {p = r}
        (first-least le o (filter chosen b.posts) e) row c

  pub first-exists :
      IsOrder le
      → {r : Post} → first_row (sort le (filter chosen b.posts)) ≡ none
      → IsRow b r
      → chosen r ≡ true
      → ⊥
  first-exists o {r} e row c =
      All-lookup (λ _. ⊥) chosen r.id b.posts {p = r}
        (first-none le o (λ _. ⊥) (filter chosen b.posts) e) row c

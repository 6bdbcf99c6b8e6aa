-- ===== src/Post/Nav/Nearest.antt =====
-- `get_nav` against a description of the two neighbours that does not speak of its filters and sorts.
use blog_be.Prelude.{
  ◌≡◌, Bool, true, false, not, ◌&&◌, ◌||◌, Option, none, some, List, [], ◌∷◌, ◌==◌, string_eq,
  nat_eq, filter, All, All-map, arith, ltb, Bool-cases, Option-cases, inl, inr,
}
use blog_be.Prelude.Table.{lookup}
use blog_be.Prelude.Sort.{sort}
use blog_be.Platform.{Platform, IsCollation}
use blog_be.Database.{Post, Blog, post_key, IsValid, status_eq, published}
use blog_be.Post.Repository.{is_older, is_newer, newest_first, oldest_first, first_row, get_nav}
use blog_be.Post.Nav.{
  newest_first-IsOrder, oldest_first-IsOrder, first-least, first-none, first-IsRow, IsRow,
}

-- another published post than `p`
abbrev pub is_candidate : Post → Post → Bool
is_candidate p r = r.status == published && not (r.id == p.id)

module _ (env : Platform) where
  -- `p` stands strictly before `q` in the order by date, the newest first, and then by id
  abbrev pub stands_before : Post → Post → Bool
  stands_before p q = ltb q.date p.date || (p.date == q.date && not (env.text_le q.id p.id))

  -- `prev` is the nearest published post behind `p`: there is none, or it is one and no third stands
  -- between the two.
  abbrev pub IsPrev : Blog → Post → Option Post → Type 0
  IsPrev b p none = All (λ r. (is_candidate p r && stands_before p r) ≡ false) b.posts
  IsPrev b p (some q) =
      (lookup post_key q.id b.posts ≡ some q)
      × ((is_candidate p q && stands_before p q) ≡ true)
      × All (λ r. (is_candidate p r && stands_before p r && stands_before r q) ≡ false) b.posts

  -- `next` is the nearest published post in front of `p`, likewise.
  abbrev pub IsNext : Blog → Post → Option Post → Type 0
  IsNext b p none = All (λ r. (is_candidate p r && stands_before r p) ≡ false) b.posts
  IsNext b p (some q) =
      (lookup post_key q.id b.posts ≡ some q)
      × ((is_candidate p q && stands_before q p) ≡ true)
      × All (λ r. (is_candidate p r && stands_before q r && stands_before r p) ≡ false) b.posts

-- What holds of the chosen rows, and of the rows that are not chosen, holds of all.
All-of_filter :
    (P : Post → Type 0) (chosen : Post → Bool)
    → ((r : Post) → chosen r ≡ false → P r)
    → (rows : List Post) → All P (filter chosen rows)
    → All P rows
All-of_filter P chosen miss [] h = tt
All-of_filter P chosen miss (r ∷ rows) h = elim (Bool-cases (chosen r)) [
  | inl hit ↦
      let both : P r × All P (filter chosen rows) = ground arith in
      (both.0, All-of_filter P chosen miss rows both.1)
  | inr missed ↦ (miss r missed, All-of_filter P chosen miss rows (ground arith))
]

module _ (env : Platform) (col : IsCollation env.text_le) where
  is_older-eq : (p r : Post) → is_older env p r ≡ (is_candidate p r && stands_before env p r)
  is_older-eq p r = ground (
    arith,
    col.antisymm p.id r.id,
    col.order.total p.id r.id,
    string_eq.beq_iff r.id p.id,
    string_eq.beq_iff p.id r.id,
  )

  is_newer-eq : (p r : Post) → is_newer env p r ≡ (is_candidate p r && stands_before env r p)
  is_newer-eq p r = ground (
    arith,
    col.antisymm p.id r.id,
    col.order.total r.id p.id,
    string_eq.beq_iff r.id p.id,
    string_eq.beq_iff p.id r.id,
  )

  first_row-IsPrev :
      (b : Blog) (v : IsValid b) (p : Post)
      → IsPrev env b p (first_row (sort (newest_first env) (filter (is_older env p) b.posts)))
  first_row-IsPrev b v p =
      let older = is_older env p in
      let le = newest_first env in
      elim (Option-cases (first_row (sort le (filter older b.posts)))) [
        | inl nothing ↦ rw nothing (
            All-of_filter (λ r. (is_candidate p r && stands_before env p r) ≡ false) older
              (λ r miss. rw (← is_older-eq p r) miss) b.posts
              (first-none le (newest_first-IsOrder env col) _ (filter older b.posts) nothing))
        | inr (q, found) ↦
            let row : (IsRow b q) × (older q ≡ true) = first-IsRow b v le older found in
            rw found (
              row.0,
              rw (← is_older-eq p q) row.1,
              All-of_filter
                  (λ r.
                    (is_candidate p r && stands_before env p r && stands_before env r q) ≡ false)
                  older (λ r miss. ground (arith, is_older-eq p r)) b.posts
                  (All-map _ _ (λ r below. ground (arith, col.order.total q.id r.id))
                    (filter older b.posts)
                    (first-least le (newest_first-IsOrder env col) (filter older b.posts) found)),
            )
      ]

  first_row-IsNext :
      (b : Blog) (v : IsValid b) (p : Post)
      → IsNext env b p (first_row (sort (oldest_first env) (filter (is_newer env p) b.posts)))
  first_row-IsNext b v p =
      let newer = is_newer env p in
      let le = oldest_first env in
      elim (Option-cases (first_row (sort le (filter newer b.posts)))) [
        | inl nothing ↦ rw nothing (
            All-of_filter (λ r. (is_candidate p r && stands_before env r p) ≡ false) newer
              (λ r miss. rw (← is_newer-eq p r) miss) b.posts
              (first-none le (oldest_first-IsOrder env col) _ (filter newer b.posts) nothing))
        | inr (q, found) ↦
            let row : (IsRow b q) × (newer q ≡ true) = first-IsRow b v le newer found in
            rw found (
              row.0,
              rw (← is_newer-eq p q) row.1,
              All-of_filter
                  (λ r.
                    (is_candidate p r && stands_before env q r && stands_before env r p) ≡ false)
                  newer (λ r miss. ground (arith, is_newer-eq p r)) b.posts
                  (All-map _ _ (λ r below. ground (arith, col.order.total q.id r.id))
                    (filter newer b.posts)
                    (first-least le (oldest_first-IsOrder env col) (filter newer b.posts) found)),
            )
      ]

  -- On a valid database `get_nav` gives for a post the nearest published posts on both sides of it, in
  -- the order by date, the newest first, and then by id: a neighbour is another published post of the
  -- table, stands on its side of the post, and no third published post stands between the two; and it
  -- gives no neighbour on a side exactly where no published post stands on that side.
  pub nav_nearest :
      (b : Blog) (p : Post)
      → IsValid b
      → IsPrev env b p (get_nav env p b).0 × IsNext env b p (get_nav env p b).1
  unfolding get_nav
  nav_nearest b p v = (first_row-IsPrev b v p, first_row-IsNext b v p)

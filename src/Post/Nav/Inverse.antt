-- ===== src/Post/Nav/Inverse.antt =====
-- The two neighbours of `get_nav` are inverse to one another.
use blog_be.Prelude.{◌≡◌, ◌∙◌, ap, true, some, string_eq, filter, Option-cases, inl, inr}
use blog_be.Prelude.Table.{lookup}
use blog_be.Prelude.Sort.{sort}
use blog_be.Platform.{Platform, IsCollation}
use blog_be.Database.{Post, Blog, post_key, IsValid}
use blog_be.Post.Repository.{
  is_published, is_older, is_newer, newest_first, oldest_first, first_row, get_nav,
}
use blog_be.Post.Nav.{
  IsRow, same_row, first-IsRow, first-below, first-exists, newest_first-IsOrder,
  oldest_first-IsOrder, newer_of_older, older_of_newer, no_post_between_newer,
  no_post_between_older,
}

module _ (env : Platform) (col : IsCollation env.text_le) (b : Blog) (v : IsValid b) (p q : Post)
    (row : lookup post_key p.id b.posts ≡ some p) (shown : is_published p ≡ true) where
  module _ (is_prev : (get_nav env p b).0 ≡ some q) where
    prev_older : (IsRow b q) × (is_older env p q ≡ true)
    unfolding get_nav
    prev_older = first-IsRow b v (newest_first env) (is_older env p) is_prev

    only_newer :
        (r : Post)
        → first_row (sort (oldest_first env) (filter (is_newer env q) b.posts)) ≡ some r
        → r ≡ p
    unfolding get_nav
    only_newer r e =
        let newer : (IsRow b r) × (is_newer env q r ≡ true) =
          first-IsRow b v (oldest_first env) (is_newer env q) e in
        same_row b p r row newer.0 (
          no_post_between_newer env col p q r newer.1
            (first-below b v _ (is_newer env q) (oldest_first-IsOrder env col) e row
              (newer_of_older env col p q shown prev_older.1))
            (λ older.
              first-below b v _ (is_older env p) (newest_first-IsOrder env col) is_prev newer.0
                older))

    -- If `q` is the older neighbour of the published post `p`, then `p` is the newer neighbour of `q`.
    pub next_of_prev : (get_nav env q b).1 ≡ some p
    unfolding get_nav
    next_of_prev =
        elim (Option-cases
          (first_row (sort (oldest_first env) (filter (is_newer env q) b.posts)))) [
            | inl gone ↦ absurd (
                first-exists b v _ (is_newer env q) (oldest_first-IsOrder env col) gone row
                  (newer_of_older env col p q shown prev_older.1))
            | inr (r, e) ↦ e ∙ ap (λ x. some x) (only_newer r e)
          ]

  module _ (is_next : (get_nav env p b).1 ≡ some q) where
    next_newer : (IsRow b q) × (is_newer env p q ≡ true)
    unfolding get_nav
    next_newer = first-IsRow b v (oldest_first env) (is_newer env p) is_next

    only_older :
        (r : Post)
        → first_row (sort (newest_first env) (filter (is_older env q) b.posts)) ≡ some r
        → r ≡ p
    unfolding get_nav
    only_older r e =
        let older : (IsRow b r) × (is_older env q r ≡ true) =
          first-IsRow b v (newest_first env) (is_older env q) e in
        same_row b p r row older.0 (
          no_post_between_older env col p q r older.1
            (first-below b v _ (is_older env q) (newest_first-IsOrder env col) e row
              (older_of_newer env col p q shown next_newer.1))
            (λ newer.
              first-below b v _ (is_newer env p) (oldest_first-IsOrder env col) is_next older.0
                newer))

    -- If `q` is the newer neighbour of the published post `p`, then `p` is the older neighbour of `q`.
    pub prev_of_next : (get_nav env q b).0 ≡ some p
    unfolding get_nav
    prev_of_next =
        elim (Option-cases
          (first_row (sort (newest_first env) (filter (is_older env q) b.posts)))) [
            | inl gone ↦ absurd (
                first-exists b v _ (is_older env q) (newest_first-IsOrder env col) gone row
                  (older_of_newer env col p q shown next_newer.1))
            | inr (r, e) ↦ e ∙ ap (λ x. some x) (only_older r e)
          ]

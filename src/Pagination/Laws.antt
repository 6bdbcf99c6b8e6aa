-- ===== src/Pagination/Laws.antt =====
-- Walking the pages while `has_next` holds gives every row once.
use Prim.Native.Nat.{min}
use blog_be.Prelude.{
  ℕ, zero, suc, ◌+◌, ◌-◌, ◌*◌, ◌^◌, ◌≤◌, ◌<◌, ◌≡◌, ◌∙◌, ap, Bool, true, false, List, [], ◌++◌, ◌↔◌,
  length, take, drop, take-append-take-drop, take_all, length-take, length-drop, arith, leb→le, leb,
  ltb→lt, lt→ltb, &&-eq_true,
}
use blog_be.Query.{page_of}
use blog_be.Pagination.{max_page, max_page_size, page_query, page_size_query, build}

module _ {ℓ} {A : Type ℓ} where
  abbrev pub has_next_of : ℕ → ℕ → List A → Bool
  has_next_of page page_size rows =
      (build (page_of page page_size rows) (length rows) page page_size).has_next

  -- the items of the pages 1 to n, one after the other
  abbrev pub first_pages : ℕ → ℕ → List A → List A
  first_pages zero page_size rows = []
  first_pages (suc n) page_size rows =
      first_pages n page_size rows ++ page_of (suc n) page_size rows

  pub first_pages-eq-take :
      (n page_size : ℕ) (rows : List A) → first_pages n page_size rows ≡ take (n * page_size) rows
  unfolding page_of
  first_pages-eq-take zero page_size rows =
      ap (λ k. take k rows) (let e : 0 ≡ zero * page_size = omega arith in e)
  first_pages-eq-take (suc n) page_size rows =
      let offset : (suc n - 1) * page_size ≡ n * page_size = grind arith in
      let next : n * page_size + page_size ≡ suc n * page_size = grind arith in
      ap (λ l. l ++ take page_size (drop ((suc n - 1) * page_size) rows))
        (first_pages-eq-take n page_size rows)
      ∙ ap (λ k. take (n * page_size) rows ++ take page_size (drop k rows)) offset
      ∙ take-append-take-drop (n * page_size) page_size rows
      ∙ ap (λ k. take k rows) next

  -- If page n has no next page, the pages 1 to n together are all the rows, in their order.
  pub pages_cover :
      (n page_size : ℕ) (rows : List A)
      → has_next_of n page_size rows ≡ false
      → first_pages n page_size rows ≡ rows
  unfolding build
  pages_cover n page_size rows h =
      first_pages-eq-take n page_size rows ∙ take_all (n * page_size) rows (ground arith)

  -- `has_next` holds exactly if the next page has an item.
  pub has_next_iff :
      (page page_size : ℕ) (rows : List A)
      → 1 ≤ page_size
      → (has_next_of page page_size rows ≡ true) ↔ (0 < length (page_of (page + 1) page_size rows))
  unfolding build page_of
  has_next_iff page page_size rows h =
      let offset : (page + 1 - 1) * page_size ≡ page * page_size = grind arith in
      let len : length (page_of (page + 1) page_size rows)
          ≡ min page_size (length rows - page * page_size) =
        length-take page_size (drop ((page + 1 - 1) * page_size) rows)
        ∙ ap (min page_size)
            (length-drop ((page + 1 - 1) * page_size) rows ∙ ap (λ k. length rows - k) offset) in
      (
        λ t. omega (arith, len, ltb→lt (page * page_size) (length rows) t),
        λ p. lt→ltb (page * page_size) (length rows) (omega (arith, len)),
      )

mul_mono : (a b c : ℕ) → a ≤ b → a * c ≤ b * c
mul_mono a b c h = grind arith

-- Within the bounds of the query the last row that a page can reach fits in an int64 OFFSET, and a
-- page has at most 100 items.
pub page_bounds {ℓ} :
    {A : Type ℓ} (page page_size : ℕ) (rows : List A)
    → page_query page ≡ true
    → page_size_query page_size ≡ true
    → ((page - 1) * page_size + page_size < 2 ^ 63) × (length (page_of page page_size rows) ≤ 100)
unfolding page_query page_size_query page_of
page_bounds page page_size rows h k =
    let page_le : page ≤ max_page =
      leb→le page max_page (&&-eq_true (leb 1 page) (leb page max_page) h).1 in
    let size_le : page_size ≤ max_page_size =
      leb→le page_size max_page_size
        (&&-eq_true (leb 1 page_size) (leb page_size max_page_size) k).1 in
    let scaled : (page - 1) * page_size ≤ 9999 * page_size =
      mul_mono (page - 1) 9999 page_size (omega (arith, page_le)) in
    (omega arith, omega (arith, length-take page_size (drop ((page - 1) * page_size) rows)))

-- ===== src/Query/Order.antt =====
-- The ORDER BY lists are total orders.
use blog_be.Prelude.{ℕ, String, ◌≡◌, Bool, true, false, arith}
use blog_be.Prelude.Sort.{IsOrder}
use blog_be.Query.{desc_by}

module _ {ℓ} {A : Type ℓ} (key : A → ℕ) (rest : A → A → Bool) (o : IsOrder rest) where
  desc_by-total : (a b : A) → desc_by key rest a b ≡ false → desc_by key rest b a ≡ true
  desc_by-total a b h = ground (arith, o.total a b)

  desc_by_trans :
      (a b c : A)
      → desc_by key rest a b ≡ true
      → desc_by key rest b c ≡ true
      → desc_by key rest a c ≡ true
  desc_by_trans a b c h k = ground (arith, o.trans a b c)

  pub desc_by-IsOrder : IsOrder (desc_by key rest)
  desc_by-IsOrder = record { total = desc_by-total; trans = desc_by_trans }

module _ {ℓ} {A : Type ℓ} (key : A → String) {le : String → String → Bool} (o : IsOrder le) where
  pub asc_by-IsOrder : IsOrder {A = A} (λ a b. le (key a) (key b))
  asc_by-IsOrder = record {
    total = λ a b. o.total (key a) (key b);
    trans = λ a b c. o.trans (key a) (key b) (key c);
  }

-- ===== src/Prelude/Unique.antt =====
-- Unique keys survive ORDER BY, OFFSET and LIMIT.
use mathlib.Core.Path.{◌≡◌, refl}
use mathlib.Core.Bool.{Bool, false, ◌||◌}
use mathlib.Core.List.{List, [], ◌∷◌}
use Prim.Native.Nat.{ℕ, zero, suc}
use native.Mathlib.Omega.{arith}
use blog_be.Prelude.Equality.{Eq, ◌==◌, ==_symm}
use blog_be.Prelude.Lists.{any, take, drop}
use blog_be.Prelude.Table.{has, IsUnique}
use blog_be.Prelude.Sort.{insert, sort}

module _ {ℓ} {A : Type ℓ} (le : A → A → Bool) (p : A → Bool) where
  pub any-insert : (x : A) (xs : List A) → any p (insert le x xs) ≡ (p x || any p xs)
  any-insert x [] = refl
  any-insert x (y ∷ ys) = ground (arith, any-insert x ys)

  pub any-sort : (xs : List A) → any p (sort le xs) ≡ any p xs
  any-sort [] = refl
  any-sort (x ∷ xs) = ground (arith, any-insert x (sort le xs), any-sort xs)

module _ {ℓ} {R K : Type ℓ} ⦃e : Eq K⦄ (key : R → K) where
  pub has-take :
      (k : K) (n : ℕ) (rows : List R) → has key k rows ≡ false → has key k (take n rows) ≡ false
  has-take k zero rows h = refl
  has-take k (suc n) [] h = refl
  has-take k (suc n) (r ∷ rows) h = ground (arith, has-take k n rows)

  pub take-IsUnique : (n : ℕ) (rows : List R) → IsUnique key rows → IsUnique key (take n rows)
  take-IsUnique zero rows u = tt
  take-IsUnique (suc n) [] u = tt
  take-IsUnique (suc n) (r ∷ rows) u = (has-take (key r) n rows u.0, take-IsUnique n rows u.1)

  pub drop-IsUnique : (n : ℕ) (rows : List R) → IsUnique key rows → IsUnique key (drop n rows)
  drop-IsUnique zero rows u = u
  drop-IsUnique (suc n) [] u = tt
  drop-IsUnique (suc n) (r ∷ rows) u = drop-IsUnique n rows u.1

  module _ (le : R → R → Bool) where
    insert-IsUnique :
        (r : R) (rows : List R)
        → has key (key r) rows ≡ false
        → IsUnique key rows
        → IsUnique key (insert le r rows)
    insert-IsUnique r [] h u = (refl, tt)
    insert-IsUnique r (q ∷ rows) h u = ground (
      arith,
      insert-IsUnique r rows,
      any-insert le (λ x. key x == key q) r rows,
      ==_symm (key q) (key r),
    )

    pub sort-IsUnique : (rows : List R) → IsUnique key rows → IsUnique key (sort le rows)
    sort-IsUnique [] u = tt
    sort-IsUnique (r ∷ rows) u = ground (
      arith,
      insert-IsUnique r (sort le rows),
      any-sort le (λ x. key x == key r) rows,
      sort-IsUnique rows u.1,
    )

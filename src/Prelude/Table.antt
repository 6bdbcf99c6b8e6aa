-- ===== src/Prelude/Table.antt =====
-- A database table as the list of its rows, with a key on which it is unique.
use mathlib.Core.Path.{◌≡◌, refl}
use mathlib.Core.Logic.{◌≢◌}
use mathlib.Core.Bool.{Bool, true, false, not, ◌||◌}
use mathlib.Core.Option.{Option, none, some}
use mathlib.Core.List.{List, [], ◌∷◌, map}
use native.Mathlib.Omega.{arith}
use blog_be.Prelude.Tests.{if◌then◌else◌}
use blog_be.Prelude.Equality.{Eq, ◌==◌}
use blog_be.Prelude.Lists.{filter, any, find}

module _ {ℓ} {R K : Type ℓ} ⦃e : Eq K⦄ (key : R → K) where
  -- `SELECT … WHERE key = k`, of which there is at most one
  abbrev pub lookup : K → List R → Option R
  lookup k rows = find (λ r. key r == k) rows

  abbrev pub has : K → List R → Bool
  has k rows = any (λ r. key r == k) rows

  -- `UPDATE … WHERE key = k`
  abbrev pub update : K → (R → R) → List R → List R
  update k f rows = map (λ r. if key r == k then f r else r) rows

  -- `DELETE … WHERE key = k`
  abbrev pub delete : K → List R → List R
  delete k rows = filter (λ r. not (key r == k)) rows

  abbrev pub IsUnique : List R → Type 0
  IsUnique [] = Unit
  IsUnique (r ∷ rows) = (has (key r) rows ≡ false) × IsUnique rows

module _ {ℓ} {R K : Type ℓ} ⦃e : Eq K⦄ (key : R → K) where
  pub lookup-eq_none : (k : K) (rows : List R) → has key k rows ≡ false → lookup key k rows ≡ none
  lookup-eq_none k [] h = refl
  lookup-eq_none k (r ∷ rows) h = ground (arith, lookup-eq_none k rows)

  pub has_of_lookup :
      (k : K) (rows : List R) {r : R} → lookup key k rows ≡ some r → has key k rows ≡ true
  has_of_lookup k [] h = ground arith
  has_of_lookup k (r ∷ rows) {r = q} h = ground (arith, has_of_lookup k rows {r = q})

  pub has-of_none : (k : K) (rows : List R) → lookup key k rows ≡ none → has key k rows ≡ false
  has-of_none k [] h = refl
  has-of_none k (r ∷ rows) h = ground (arith, has-of_none k rows)

  pub key-lookup : (k : K) (rows : List R) {r : R} → lookup key k rows ≡ some r → key r ≡ k
  key-lookup k [] h = ground arith
  key-lookup k (r ∷ rows) {r = q} h = ground (arith, key-lookup k rows {r = q}, e.beq_iff (key r) k)

  pub has-delete :
      (k j : K) (rows : List R)
      → has key j (delete key k rows) ≡ (if j == k then false else has key j rows)
  has-delete k j [] = ground arith
  has-delete k j (r ∷ rows) =
      ground (arith, has-delete k j rows, e.beq_iff (key r) k, e.beq_iff (key r) j, e.beq_iff j k)

  pub lookup-delete_ne :
      (k j : K) (rows : List R) → j ≢ k → lookup key j (delete key k rows) ≡ lookup key j rows
  lookup-delete_ne k j [] h = refl
  lookup-delete_ne k j (r ∷ rows) h =
      ground (arith, lookup-delete_ne k j rows h, e.beq_iff (key r) k, e.beq_iff (key r) j)

  pub delete_absent : (k : K) (rows : List R) → has key k rows ≡ false → delete key k rows ≡ rows
  delete_absent k [] h = refl
  delete_absent k (r ∷ rows) h = ground (arith, delete_absent k rows)

  pub has-filter-false :
      (p : R → Bool) (k : K) (rows : List R)
      → has key k rows ≡ false
      → has key k (filter p rows) ≡ false
  has-filter-false p k [] h = refl
  has-filter-false p k (r ∷ rows) h = ground (arith, has-filter-false p k rows)

  pub filter-IsUnique :
      (p : R → Bool) (rows : List R) → IsUnique key rows → IsUnique key (filter p rows)
  filter-IsUnique p [] h = tt
  filter-IsUnique p (r ∷ rows) h =
      ground (arith, filter-IsUnique p rows h.1, has-filter-false p (key r) rows h.0)

  -- an update that leaves the key alone
  module _ (k : K) (f : R → R) (keeps : (r : R) → key (f r) ≡ key r) where
    pub has-update : (j : K) (rows : List R) → has key j (update key k f rows) ≡ has key j rows
    has-update j [] = refl
    has-update j (r ∷ rows) = ground (arith, has-update j rows, keeps r)

    pub update-IsUnique : (rows : List R) → IsUnique key rows → IsUnique key (update key k f rows)
    update-IsUnique [] h = tt
    update-IsUnique (r ∷ rows) h =
        ground (arith, update-IsUnique rows h.1, has-update (key r) rows, keeps r)

    pub lookup-update_self :
        (rows : List R) {r : R}
        → lookup key k rows ≡ some r
        → lookup key k (update key k f rows) ≡ some (f r)
    lookup-update_self [] h = ground arith
    lookup-update_self (q ∷ rows) {r = r} h =
        ground (arith, lookup-update_self rows {r = r}, keeps q)

    pub lookup-update_ne :
        (j : K) (rows : List R) → j ≢ k → lookup key j (update key k f rows) ≡ lookup key j rows
    lookup-update_ne j [] h = refl
    lookup-update_ne j (r ∷ rows) h =
        ground (arith, lookup-update_ne j rows h, keeps r, e.beq_iff (key r) k, e.beq_iff (key r) j)

  -- an update that sets the key of one row to a key that no row has
  module _ (k n : K) (f : R → R) (sets : (r : R) → key (f r) ≡ n) where
    pub has-rename :
        (j : K) (rows : List R)
        → has key j (update key k f rows) ≡ (
            if j == n
            then has key k rows || has key n rows
            else if j == k
            then false
            else has key j rows)
    has-rename j [] = ground arith
    has-rename j (r ∷ rows) = ground (
      arith,
      has-rename j rows,
      sets r,
      e.beq_iff (key r) k,
      e.beq_iff (key r) j,
      e.beq_iff (key r) n,
      e.beq_iff j n,
      e.beq_iff j k,
      e.beq_iff n j,
    )

    pub rename-IsUnique :
        (rows : List R)
        → has key n rows ≡ false
        → IsUnique key rows
        → IsUnique key (update key k f rows)
    rename-IsUnique [] fresh h = tt
    rename-IsUnique (r ∷ rows) fresh h = ground (
      arith,
      rename-IsUnique rows,
      has-rename (key r) rows,
      has-rename n rows,
      sets r,
      e.beq_iff (key r) k,
      e.beq_iff (key r) n,
      e.beq_iff n n,
    )

    pub lookup-rename_self :
        (rows : List R) {r : R}
        → has key n rows ≡ false
        → lookup key k rows ≡ some r
        → lookup key n (update key k f rows) ≡ some (f r)
    lookup-rename_self [] fresh h = ground arith
    lookup-rename_self (q ∷ rows) {r = r} fresh h = ground (
      arith,
      lookup-rename_self rows {r = r},
      sets q,
      e.beq_iff (key q) k,
      e.beq_iff (key q) n,
      e.beq_iff n n,
    )

    pub lookup-rename_ne :
        (j : K) (rows : List R)
        → j ≢ k
        → j ≢ n
        → lookup key j (update key k f rows) ≡ lookup key j rows
    lookup-rename_ne j [] old new = refl
    lookup-rename_ne j (r ∷ rows) old new = ground (
      arith,
      lookup-rename_ne j rows old new,
      sets r,
      e.beq_iff (key r) k,
      e.beq_iff (key r) j,
      e.beq_iff n j,
    )

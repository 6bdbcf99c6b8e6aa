-- ===== src/Auth/Concurrent/Rows.antt =====
-- What the two commits of a concurrent run do to the status of a row.
use blog_be.Prelude.{
  String, ◌≡◌, ◌≢◌, refl, ◌∙◌, ap, Bool, true, false, not, some, List, [], ◌∷◌, ◌==◌, string_eq,
  Bool-cases, inl, inr, arith, if◌then◌else◌,
}
use blog_be.Prelude.Table.{lookup, has, update}
use blog_be.Auth.Repository.{RefreshToken, active, rotated, refresh_status_eq, token_key, mark}
use blog_be.Auth.Concurrent.{sweep}

-- the row of a key is there and active, or there and not active
abbrev pub is_active : String → List RefreshToken → Bool
is_active r [] = false
is_active r (t ∷ rows) = if t.jti == r then t.status == active else is_active r rows

abbrev pub is_spent : String → List RefreshToken → Bool
is_spent r [] = false
is_spent r (t ∷ rows) = if t.jti == r then not (t.status == active) else is_spent r rows

-- a row that is there is one or the other
pub not-active-spent :
    (r : String) (rows : List RefreshToken) → is_active r rows ≡ true → is_spent r rows ≡ false
not-active-spent r [] h = refl
not-active-spent r (t ∷ rows) h = ground (arith, not-active-spent r rows)

pub has_of_spent :
    (r : String) (rows : List RefreshToken) → is_spent r rows ≡ true → has token_key r rows ≡ true
has_of_spent r [] h = absurd (cc)
has_of_spent r (t ∷ rows) h = ground (arith, has_of_spent r rows)

pub has_of_active :
    (r : String) (rows : List RefreshToken) → is_active r rows ≡ true → has token_key r rows ≡ true
has_of_active r [] h = absurd (cc)
has_of_active r (t ∷ rows) h = ground (arith, has_of_active r rows)

pub active_of_lookup :
    (r : String) (rows : List RefreshToken) {row : RefreshToken}
    → lookup token_key r rows ≡ some row
    → row.status ≡ active
    → is_active r rows ≡ true
active_of_lookup r [] h e = absurd (cc)
active_of_lookup r (t ∷ rows) {row} h e = ground (arith, active_of_lookup r rows {row = row})

-- the exchange of the row of `k`
module _ (k : String) where
  pub active-rotate_ne :
      (r : String) (rows : List RefreshToken)
      → r ≢ k
      → is_active r rows ≡ true
      → is_active r (update token_key k (mark rotated) rows) ≡ true
  active-rotate_ne r [] ne h = h
  active-rotate_ne r (t ∷ rows) ne h =
      ground
        (arith, active-rotate_ne r rows ne, string_eq.beq_iff t.jti k, string_eq.beq_iff t.jti r)

  pub spent-rotate :
      (r : String) (rows : List RefreshToken)
      → is_spent r rows ≡ true
      → is_spent r (update token_key k (mark rotated) rows) ≡ true
  spent-rotate r [] h = h
  spent-rotate r (t ∷ rows) h = ground (arith, spent-rotate r rows)

  pub rotate-spent :
      (rows : List RefreshToken)
      → is_active k rows ≡ true
      → is_spent k (update token_key k (mark rotated) rows) ≡ true
  rotate-spent [] h = absurd (cc)
  rotate-spent (t ∷ rows) h = ground (arith, rotate-spent rows)

-- the sweep
module _ (subject : String) (chosen : String → Bool) where
  pub active-sweep :
      (r : String) (rows : List RefreshToken)
      → chosen r ≡ false
      → is_active r rows ≡ true
      → is_active r (sweep subject chosen rows) ≡ true
  active-sweep r [] free h = h
  active-sweep r (t ∷ rows) free h = elim (Bool-cases (t.jti == r)) [
    | inl hit ↦
        let same : t.jti ≡ r = (string_eq.beq_iff t.jti r).0 hit in
        let kept : chosen t.jti ≡ false = ap chosen same ∙ free in ground arith
    | inr miss ↦ ground (arith, active-sweep r rows free)
  ]

  pub spent-sweep :
      (r : String) (rows : List RefreshToken)
      → is_spent r rows ≡ true
      → is_spent r (sweep subject chosen rows) ≡ true
  spent-sweep r [] h = h
  spent-sweep r (t ∷ rows) h = ground (arith, spent-sweep r rows)

  pub has-sweep :
      (r : String) (rows : List RefreshToken)
      → has token_key r (sweep subject chosen rows) ≡ has token_key r rows
  has-sweep r [] = refl
  has-sweep r (t ∷ rows) = ground (arith, has-sweep r rows)

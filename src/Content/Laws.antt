-- ===== src/Content/Laws.antt =====
-- What a PUT stores, what it refuses, and which rows the table can hold.
use blog_be.Prelude.{
  ℕ, zero, suc, ◌≤◌, String, ◌≡◌, ◌≢◌, refl, ◌∙◌, ap, true, false, some, List, [], ◌∷◌, All,
  Bool-cases, Option-cases, inl, inr, arith, ltb, length, string_eq, ◌==◌,
}
use blog_be.Prelude.Table.{
  has, IsUnique, update, lookup, update-IsUnique, lookup-update_self, lookup-update_ne,
  has_of_lookup, has-of_none, key-lookup,
}
use blog_be.Server.Http.{codes}
use blog_be.Content.{SiteContent, is_key, is_key_rest, content_key, find_content, write_row}

length-is_key_rest : (n : ℕ) (cs : List ℕ) → is_key_rest n cs ≡ true → length cs ≤ n
length-is_key_rest n [] h = omega arith
length-is_key_rest zero (c ∷ cs) h = absurd (cc)
length-is_key_rest (suc n) (c ∷ cs) h = ground (arith, length-is_key_rest n cs)

length-is_key : (cs : List ℕ) → is_key cs ≡ true → length cs ≤ 64
length-is_key [] h = absurd (cc)
length-is_key (c ∷ cs) h = ground (arith, length-is_key_rest 63 cs)

pub key_fits : (cs : List ℕ) → is_key cs ≡ true → ltb 64 (length cs) ≡ false
key_fits cs h = ground (arith, length-is_key cs h)

module _ {C : Type 0} where
  pub find-write_row_self :
      (now : ℕ) (key : String) (stored : C) (rows : List (SiteContent C))
      → find_content key (write_row now key stored rows)
        ≡ some (record { key = key; content = stored; updated_at = now })
  unfolding find_content write_row
  find-write_row_self now key stored rows = elim (Option-cases (lookup content_key key rows)) [
    | inr (r, e) ↦ rw (has_of_lookup content_key key rows {r = r} e) (
        lookup-update_self content_key key _ (λ x. refl) rows {r = r} e
        ∙ ap (λ k. some (record { key = k; content = stored; updated_at = now }))
            (key-lookup content_key key rows {r = r} e))
    | inl e ↦ rw (has-of_none content_key key rows e) (ground (arith, string_eq.beq_iff key key))
  ]

  pub find-write_row_ne :
      (now : ℕ) (key other : String) (stored : C) (rows : List (SiteContent C))
      → other ≢ key
      → find_content other (write_row now key stored rows) ≡ find_content other rows
  unfolding find_content write_row
  find-write_row_ne now key other stored rows h = elim (Bool-cases (has content_key key rows)) [
    | inl old ↦ rw old (lookup-update_ne content_key key _ (λ r. refl) other rows h)
    | inr new ↦ rw new (ground (arith, string_eq.beq_iff key other))
  ]

  -- one row for a key, and each key is one that the routes accept
  pub record IsContents (rows : List (SiteContent C)) : Type 0 where
    pub unique : IsUnique content_key rows
    pub keys : All (λ r. is_key (codes r.key) ≡ true) rows

  keys-rewrite :
      (now : ℕ) (key : String) (stored : C) (rows : List (SiteContent C))
      → All (λ r. is_key (codes r.key) ≡ true) rows
      → All
          (λ r. is_key (codes r.key) ≡ true)
          (update content_key key (λ r. record r { content = stored; updated_at = now }) rows)
  keys-rewrite now key stored [] h = tt
  keys-rewrite now key stored (r ∷ rows) h = elim (Bool-cases (r.key == key)) [
    | inl hit ↦ rw hit (h.0, keys-rewrite now key stored rows h.1)
    | inr miss ↦ rw miss (h.0, keys-rewrite now key stored rows h.1)
  ]

  pub write_row-IsContents :
      (now : ℕ) (key : String) (stored : C) (rows : List (SiteContent C))
      → is_key (codes key) ≡ true
      → IsContents rows
      → IsContents (write_row now key stored rows)
  unfolding write_row
  write_row-IsContents now key stored rows k v = elim (Bool-cases (has content_key key rows)) [
    | inl old ↦ rw old (record {
      unique = update-IsUnique content_key key _ (λ r. refl) rows v.unique;
      keys = keys-rewrite now key stored rows v.keys;
    })
    | inr new ↦ rw new (record { unique = (new, v.unique); keys = (k, v.keys) })
  ]

-- ===== src/Config/Strip.antt =====
-- `strip` and the list of CORS origins.
use blog_be.Prelude.{
  ℕ, ◌≡◌, refl, ◌∙◌, ap, Bool, true, not, ◌&&◌, List, [], ◌∷◌, map, filter, All, All-filter,
  All-filter_self, Bool-cases, inl, inr, arith,
}
use blog_be.Server.Http.{codes}
use blog_be.Config.{
  Config, is_space, is_blank, strip_left, strip_right, strip, split_comma, cors_origins_list,
}

-- no white space in front
unfoldable starts_solid : List ℕ → Bool
starts_solid [] = true
starts_solid (c ∷ cs) = not (is_space c)

strip_left-starts_solid : (cs : List ℕ) → starts_solid (strip_left cs) ≡ true
unfolding starts_solid
strip_left-starts_solid [] = refl
strip_left-starts_solid (c ∷ cs) = elim (Bool-cases (is_space c)) [
  | inl t ↦ rw t (strip_left-starts_solid cs)
  | inr f ↦ rw (f, f) refl
]

strip_right-starts_solid :
    (cs : List ℕ) → starts_solid cs ≡ true → starts_solid (strip_right cs) ≡ true
unfolding starts_solid
strip_right-starts_solid [] h = refl
strip_right-starts_solid (c ∷ cs) h = elim (Bool-cases (is_space c)) [
  | inl t ↦ absurd (ground arith)
  | inr f ↦ rw (f, f) refl
]

strip_left-solid : (cs : List ℕ) → starts_solid cs ≡ true → strip_left cs ≡ cs
unfolding starts_solid
strip_left-solid [] h = refl
strip_left-solid (c ∷ cs) h = elim (Bool-cases (is_space c)) [
  | inl t ↦ absurd (ground arith)
  | inr f ↦ rw f refl
]

strip_right_twice : (cs : List ℕ) → strip_right (strip_right cs) ≡ strip_right cs
strip_right_twice [] = refl
strip_right_twice (c ∷ cs) = elim (Bool-cases (is_space c && is_blank (strip_right cs))) [
  | inl t ↦ rw t refl
  | inr f ↦ rw (f, strip_right_twice cs, f) refl
]

strip_twice : (cs : List ℕ) → strip (strip cs) ≡ strip cs
unfolding strip
strip_twice cs =
    ap strip_right (
      strip_left-solid (strip_right (strip_left cs))
        (strip_right-starts_solid (strip_left cs) (strip_left-starts_solid cs)))
    ∙ strip_right_twice (strip_left cs)

All-stripped : (words : List (List ℕ)) → All (λ o. strip o ≡ o) (map strip words)
All-stripped [] = tt
All-stripped (w ∷ words) = (strip_twice w, All-stripped words)

All-both {ℓ} :
    {A : Type ℓ} (P Q : A → Type 0) (xs : List A) → All P xs → All Q xs → All (λ x. P x × Q x) xs
All-both P Q [] h k = tt
All-both P Q (x ∷ xs) h k = ((h.0, k.0), All-both P Q xs h.1 k.1)

-- Every CORS origin is a text that is not blank and has no white space around it.
pub cors_origins_stripped :
    (c : Config) → All (λ o. (strip o ≡ o) × (not (is_blank o) ≡ true)) (cors_origins_list c)
unfolding cors_origins_list
cors_origins_stripped c =
    let words : List (List ℕ) = map strip (split_comma (codes c.cors_origins)) in
    All-both (λ o. strip o ≡ o) (λ o. not (is_blank o) ≡ true)
      (filter (λ o. not (is_blank o)) words)
      (All-filter (λ o. strip o ≡ o) (λ o. not (is_blank o)) words
        (All-stripped (split_comma (codes c.cors_origins))))
      (All-filter_self (λ o. not (is_blank o)) words)

-- ===== src/Tests/Ilike.antt =====
-- A matcher that does what PostgreSQL documents of ILIKE, for a case folding of single characters.
use blog_be.Prelude.{
  ℕ, String, ◌≡◌, refl, ap, ◌↔◌, Bool, true, false, ◌&&◌, ◌||◌, List, [], ◌∷◌, ◌++◌, ◌==◌, nat_eq,
  Bool-cases, inl, inr, arith, ◌+◌, if◌then◌else◌, leb,
}
use blog_be.Server.Http.{codes}
use blog_be.Post.Repository.{search_pattern}
use blog_be.Post.Search.{
  Token, literal, any_one, any_text, tokenize, Matches, IsIlike, Contains, search_literal,
}

module _ (fold : ℕ → ℕ) where
  abbrev pub like : List Token → List ℕ → Bool
  like [] [] = true
  like [] (d ∷ text) = false
  like (literal c ∷ tokens) [] = false
  like (literal c ∷ tokens) (d ∷ text) = (fold c == fold d) && like tokens text
  like (any_one ∷ tokens) [] = false
  like (any_one ∷ tokens) (d ∷ text) = like tokens text
  like (any_text ∷ tokens) [] = like tokens []
  like (any_text ∷ tokens) (d ∷ text) = like tokens (d ∷ text) || like (any_text ∷ tokens) text

  like-Matches :
      (tokens : List Token) (text : List ℕ) → like tokens text ≡ true → Matches fold tokens text
  like-Matches [] [] h = refl
  like-Matches [] (d ∷ text) h = absurd (cc)
  like-Matches (literal c ∷ tokens) [] h = absurd (cc)
  like-Matches (literal c ∷ tokens) (d ∷ text) h = (
    d,
    text,
    refl,
    ground (arith, nat_eq.beq_iff (fold c) (fold d)),
    like-Matches tokens text (ground arith),
  )
  like-Matches (any_one ∷ tokens) [] h = absurd (cc)
  like-Matches (any_one ∷ tokens) (d ∷ text) h = (d, text, refl, like-Matches tokens text h)
  like-Matches (any_text ∷ tokens) [] h = ([], [], refl, like-Matches tokens [] h)
  like-Matches (any_text ∷ tokens) (d ∷ text) h = elim (Bool-cases (like tokens (d ∷ text))) [
    | inl now ↦ ([], d ∷ text, refl, like-Matches tokens (d ∷ text) now)
    | inr later ↦
        let (front, rest, split, more) = like-Matches (any_text ∷ tokens) text (ground arith) in
        (d ∷ front, rest, ap (λ l. List.◌∷◌ d l) split, more)
  ]

  any-like :
      (tokens : List Token) (front rest : List ℕ)
      → like tokens rest ≡ true
      → like (any_text ∷ tokens) (front ++ rest) ≡ true
  any-like tokens [] [] h = h
  any-like tokens [] (d ∷ rest) h = ground arith
  any-like tokens (d ∷ front) rest h = ground (arith, any-like tokens front rest h)

  Matches-like :
      (tokens : List Token) (text : List ℕ) → Matches fold tokens text → like tokens text ≡ true
  Matches-like [] text h = rw h refl
  Matches-like (literal c ∷ tokens) text (d, rest, e, same, more) =
      rw e (ground (arith, nat_eq.beq_iff (fold c) (fold d), Matches-like tokens rest more))
  Matches-like (any_one ∷ tokens) text (d, rest, e, more) = rw e (Matches-like tokens rest more)
  Matches-like (any_text ∷ tokens) text (front, rest, e, more) =
      rw e (any-like tokens front rest (Matches-like tokens rest more))

-- lower case of an ASCII letter
abbrev pub fold_ascii : ℕ → ℕ
fold_ascii c = if leb 65 c && leb c 90 then c + 32 else c

abbrev pub ilike_ascii : List ℕ → String → Bool
ilike_ascii pattern text = like fold_ascii (tokenize false pattern) (codes text)

pub ilike_ascii-IsIlike : IsIlike fold_ascii ilike_ascii
ilike_ascii-IsIlike = record {
  matches = λ pattern text. (
    like-Matches fold_ascii (tokenize false pattern) (codes text),
    Matches-like fold_ascii (tokenize false pattern) (codes text),
  );
}

percent_is_literal : ilike_ascii (search_pattern (codes "50%")) "only 50 of them" ≡ false
unfolding search_pattern
percent_is_literal = refl

search_literal_example :
    (ilike_ascii (search_pattern (codes "50%_A")) "at 50%_a" ≡ true)
    ↔ Contains fold_ascii (codes "50%_A") (codes "at 50%_a")
search_literal_example =
    search_literal fold_ascii ilike_ascii (codes "50%_A") "at 50%_a" ilike_ascii-IsIlike

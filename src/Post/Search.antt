-- ===== src/Post/Search.antt =====
-- What the pattern of `search` finds: the query itself, with no wildcard in it.
use mathlib.Core.Path.{subst}
use mathlib.Core.List.{append-nil}
use blog_be.Prelude.{
  ℕ, String, ◌≡◌, refl, ◌∙◌, ap, sym, ◌↔◌, Bool, true, false, List, [], ◌∷◌, ◌++◌, map, ◌==◌,
  nat_eq, Bool-cases, inl, inr, if◌then◌else◌,
}
use blog_be.Server.Http.{codes}
use blog_be.Post.Repository.{escape_char, search_pattern}

-- The parts of a LIKE pattern with the escape character `\`.
pub data Token : Type 0 where
  literal : ℕ → Token
  any_one any_text : Token

abbrev pub token_of : ℕ → Token
token_of c = if c == b'%' then any_text else if c == b'_' then any_one else literal c

-- true: the character comes after an escape
abbrev pub tokenize : Bool → List ℕ → List Token
tokenize escaped [] = []
tokenize true (c ∷ pattern) = literal c ∷ tokenize false pattern
tokenize false (c ∷ pattern) =
    let plain = token_of c ∷ tokenize false pattern in
    let after = tokenize true pattern in if c == b'\\' then after else plain

-- A text that a pattern matches, where `fold` is the case folding of ILIKE on one character.
abbrev pub Matches : (ℕ → ℕ) → List Token → List ℕ → Type 0
Matches fold [] text = text ≡ []
Matches fold (literal c ∷ tokens) text =
    (d : ℕ) × (rest : List ℕ) × (text ≡ d ∷ rest) × (fold c ≡ fold d) × Matches fold tokens rest
Matches fold (any_one ∷ tokens) text =
    (d : ℕ) × (rest : List ℕ) × (text ≡ d ∷ rest) × Matches fold tokens rest
Matches fold (any_text ∷ tokens) text =
    (front : List ℕ) × (rest : List ℕ) × (text ≡ front ++ rest) × Matches fold tokens rest

-- What PostgreSQL documents of `text ILIKE pattern ESCAPE '\'`.
pub record IsIlike (fold : ℕ → ℕ) (ilike : List ℕ → String → Bool) : Type 0 where
  pub matches :
      (pattern : List ℕ) (text : String)
      → (ilike pattern text ≡ true) ↔ Matches fold (tokenize false pattern) (codes text)

-- the query, up to case, at some place of the text
abbrev pub Contains : (ℕ → ℕ) → List ℕ → List ℕ → Type 0
Contains fold q text =
    (front : List ℕ) × (found : List ℕ) × (rest : List ℕ) × (text ≡ front ++ (found ++ rest))
    × (map fold q ≡ map fold found)

tokenize-escape :
    (q rest : List ℕ)
    → tokenize false (escape_char b'_' (escape_char b'%' (escape_char b'\\' q)) ++ rest)
      ≡ map literal q ++ tokenize false rest
tokenize-escape [] rest = refl
tokenize-escape (c ∷ q) rest = elim (Bool-cases (c == b'\\')) [
  | inl slash ↦
      let same : c ≡ b'\\' = (nat_eq.beq_iff c b'\\').0 slash in
      rw same (ap (λ l. List.◌∷◌ (literal b'\\') l) (tokenize-escape q rest))
  | inr other ↦ elim (Bool-cases (c == b'%')) [
    | inl percent ↦
        let same : c ≡ b'%' = (nat_eq.beq_iff c b'%').0 percent in
        rw same (ap (λ l. List.◌∷◌ (literal b'%') l) (tokenize-escape q rest))
    | inr other' ↦ elim (Bool-cases (c == b'_')) [
      | inl under ↦
          let same : c ≡ b'_' = (nat_eq.beq_iff c b'_').0 under in
          rw same (ap (λ l. List.◌∷◌ (literal b'_') l) (tokenize-escape q rest))
      | inr plain ↦
          rw (other, other', plain, other, other', plain)
            (ap (λ l. List.◌∷◌ (literal c) l) (tokenize-escape q rest))
    ]
  ]
]

module _ (fold : ℕ → ℕ) where
  -- `%` after the query takes any rest
  literal-Matches :
      (q text : List ℕ)
      → Matches fold (map literal q ++ any_text ∷ []) text
      → (found : List ℕ) × (rest : List ℕ) × (text ≡ found ++ rest) × (map fold q ≡ map fold found)
  literal-Matches [] text (front, rest, split, all) = ([], text, refl, refl)
  literal-Matches (c ∷ q) text (d, tail, head, same, more) =
      let (found, rest, split, folds) = literal-Matches q tail more in
      (d ∷ found, rest, head ∙ ap (λ l. List.◌∷◌ d l) split, cc)

  Matches-literal :
      (q found rest text : List ℕ)
      → text ≡ found ++ rest
      → map fold q ≡ map fold found
      → Matches fold (map literal q ++ any_text ∷ []) text
  Matches-literal [] [] rest text split folds = (text, [], sym (append-nil text), refl)
  Matches-literal [] (d ∷ found) rest text split folds = absurd (cc)
  Matches-literal (c ∷ q) [] rest text split folds = absurd (cc)
  Matches-literal (c ∷ q) (d ∷ found) rest text split folds =
      (d, found ++ rest, split, cc, Matches-literal q found rest (found ++ rest) refl (cc))

tokenize-search_pattern :
    (q : List ℕ) → tokenize false (search_pattern q) ≡ any_text ∷ (map literal q ++ any_text ∷ [])
unfolding search_pattern
tokenize-search_pattern q = ap (λ l. List.◌∷◌ any_text l) (tokenize-escape q (b'%' ∷ []))

-- With an ILIKE that does what PostgreSQL documents, the pattern of a query matches a text exactly if
-- the text contains the query, up to case: no character of the query is a wildcard.
pub search_literal :
    (fold : ℕ → ℕ) (ilike : List ℕ → String → Bool) (q : List ℕ) (text : String)
    → IsIlike fold ilike
    → (ilike (search_pattern q) text ≡ true) ↔ Contains fold q (codes text)
search_literal fold ilike q text law = (
  λ hit.
      let (front, tail, split, found) =
        subst (λ t. Matches fold t (codes text)) (tokenize-search_pattern q)
          ((law.matches (search_pattern q) text).0 hit) in
      let (mid, rest, split', folds) = literal-Matches fold q tail found in
      (front, mid, rest, split ∙ ap (λ l. front ++ l) split', folds),
  λ (front, mid, rest, split, folds). (law.matches (search_pattern q) text).1 (
      subst (λ t. Matches fold t (codes text)) (sym (tokenize-search_pattern q))
        (front, mid ++ rest, split, Matches-literal fold q mid rest (mid ++ rest) refl folds)),
)

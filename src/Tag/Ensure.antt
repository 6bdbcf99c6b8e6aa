-- ===== src/Tag/Ensure.antt =====
-- `ensure` gives a tag row for every name, once, and creates exactly those that are missing.
use blog_be.Prelude.{
  ℕ, String, ◌≡◌, refl, ◌∙◌, ap, Bool, true, false, not, ◌&&◌, ◌||◌, List, [], ◌∷◌, ◌++◌, ◌==◌,
  string_eq, filter, any, Bool-cases, inl, inr, arith, ==_sound,
}
use blog_be.Prelude.Table.{has, IsUnique, has-delete, filter-IsUnique}
use blog_be.Platform.{Platform}
use blog_be.Exec.{ok}
use blog_be.Database.{Tag, Blog, IsValid, tag_key, has_tag, insert_tag}
use blog_be.Database.Validity.{insert_tag-IsValid}
use blog_be.Tag.{contains, get_many, dedupe, missing, add_tags, ensure, ensure_names}

abbrev name_key : String → String
name_key n = n

pub contains-dedupe :
    (names : List String) (n : String) → contains (dedupe names) n ≡ contains names n
unfolding dedupe
contains-dedupe [] n = refl
contains-dedupe (m ∷ names) n = ground (
  arith,
  contains-dedupe names n,
  has-delete name_key m n (dedupe names),
  string_eq.beq_iff m n,
  string_eq.beq_iff n m,
)

dedupe-IsUnique : (names : List String) → IsUnique name_key (dedupe names)
unfolding dedupe
dedupe-IsUnique [] = tt
dedupe-IsUnique (m ∷ names) = ground (
  arith,
  has-delete name_key m m (dedupe names),
  string_eq.beq_iff m m,
  filter-IsUnique name_key (λ r. not (r == m)) (dedupe names) (dedupe-IsUnique names),
)

any-append : (p : Tag → Bool) (ts us : List Tag) → any p (ts ++ us) ≡ (any p ts || any p us)
any-append p [] us = refl
any-append p (t ∷ ts) us = ground (arith, any-append p ts us)

-- a filter by a test on the name
has-filter_name :
    (test : String → Bool) (n : String) (ts : List Tag)
    → has tag_key n (filter (λ t. test t.name) ts) ≡ (test n && has tag_key n ts)
has-filter_name test n [] = ground arith
has-filter_name test n (t ∷ ts) = elim (Bool-cases (t.name == n)) [
  | inl e ↦ ground (arith, has-filter_name test n ts, ap test (==_sound t.name n e))
  | inr e ↦ ground (arith, has-filter_name test n ts)
]

has-missing :
    (now : ℕ) (existing : List Tag) (n : String) (names : List String)
    → has tag_key n (missing now existing names)
      ≡ (contains names n && not (has tag_key n existing))
has-missing now existing n [] = refl
has-missing now existing n (m ∷ names) = elim (Bool-cases (m == n)) [
  | inl e ↦ ground (
    arith,
    has-missing now existing n names,
    ap (λ (k : String). has tag_key k existing) (==_sound m n e),
  )
  | inr e ↦ ground (arith, has-missing now existing n names)
]

missing-IsUnique :
    (now : ℕ) (existing : List Tag) (names : List String)
    → IsUnique name_key names
    → IsUnique tag_key (missing now existing names)
missing-IsUnique now existing [] u = tt
missing-IsUnique now existing (m ∷ names) u =
    ground (arith, has-missing now existing m names, missing-IsUnique now existing names u.1)

abbrev Absent : Blog → List Tag → Type 0
Absent b ts = (n : String) → has tag_key n ts ≡ true → has_tag n b ≡ false

-- New rows with new names violate no key.
pub add_tags_lem :
    (ts : List Tag) (b : Blog)
    → IsUnique tag_key ts
    → Absent b ts
    → add_tags ts b ≡ (ok tt, record b { tags = ts ++ b.tags })
unfolding add_tags insert_tag
add_tags_lem [] b u absent = refl
add_tags_lem (t ∷ ts) b u absent = ground (
  arith,
  add_tags_lem ts b u.1 (λ n h. absent n (ground arith)),
  absent t.name,
  string_eq.beq_iff t.name t.name,
  any-append (λ r. r.name == t.name) ts b.tags,
)

pub add_tags-IsValid : (ts : List Tag) (b : Blog) → IsValid b → IsValid (add_tags ts b).1
unfolding add_tags
add_tags-IsValid [] b v = v
add_tags-IsValid (t ∷ ts) b v = ground (
  arith,
  add_tags-IsValid ts b v,
  insert_tag-IsValid (add_tags ts b).1 (add_tags-IsValid ts b v) t,
)

has-get_many :
    (names : List String) (b : Blog) (n : String)
    → has tag_key n (get_many names b) ≡ (contains names n && has_tag n b)
unfolding get_many
has-get_many [] b n = refl
has-get_many (m ∷ names) b n = has-filter_name (contains (m ∷ names)) n b.tags

IsUnique-append :
    (ts us : List Tag)
    → IsUnique tag_key ts
    → IsUnique tag_key us
    → ((n : String) → has tag_key n ts ≡ true → has tag_key n us ≡ false)
    → IsUnique tag_key (ts ++ us)
IsUnique-append [] us u w h = w
IsUnique-append (t ∷ ts) us u w h = ground (
  arith,
  any-append (λ r. r.name == t.name) ts us,
  h t.name,
  string_eq.beq_iff t.name t.name,
  IsUnique-append ts us u.1 w (λ n k. h n (ground arith)),
)

get_many-IsUnique :
    (names : List String) (b : Blog) → IsValid b → IsUnique tag_key (get_many names b)
unfolding get_many
get_many-IsUnique [] b v = tt
get_many-IsUnique (m ∷ names) b v = filter-IsUnique tag_key _ b.tags v.tags_unique

-- What `ensure` promises: the rows it returns are those of the names, each once; the table then
-- holds the names and what it held, and nothing else of the database has changed.
pub record Ensured (names : List String) (b : Blog) (tags : List Tag) (b' : Blog) : Type 0 where
  pub covers : (n : String) → has tag_key n tags ≡ contains names n
  pub once : IsUnique tag_key tags
  pub table : (n : String) → has_tag n b' ≡ (contains names n || has_tag n b)
  pub posts : b'.posts ≡ b.posts
  pub links : b'.post_tags ≡ b.post_tags
  pub valid : IsValid b'

ensure_names_lem :
    (env : Platform) (names : List String) (b : Blog)
    → let new_tags = missing env.db_now (get_many names b) names in
      add_tags new_tags b ≡ (ok tt, record b { tags = new_tags ++ b.tags })
      → ensure_names env names b
        ≡ (ok (get_many names b ++ new_tags), record b { tags = new_tags ++ b.tags })
ensure_names_lem env [] b h = unfold get_many in refl
ensure_names_lem env (n ∷ names) b h = rw h refl

module _ (env : Platform) (names : List String) (b : Blog) (v : IsValid b) where
  ensure_eq : ensure env names b ≡ ensure_names env (dedupe names) b
  ensure_eq = unfold ensure in refl

  abbrev pub existing : List Tag
  existing = get_many (dedupe names) b

  abbrev pub new_tags : List Tag
  new_tags = missing env.db_now existing (dedupe names)

  new_tags-Absent : Absent b new_tags
  new_tags-Absent n h =
      ground
        (arith, has-missing env.db_now existing n (dedupe names), has-get_many (dedupe names) b n)

  added : add_tags new_tags b ≡ (ok tt, record b { tags = new_tags ++ b.tags })
  added =
      add_tags_lem new_tags b
        (missing-IsUnique env.db_now existing (dedupe names) (dedupe-IsUnique names))
        new_tags-Absent

  pub ensure-eq_ok :
      ensure env names b ≡ (ok (existing ++ new_tags), record b { tags = new_tags ++ b.tags })
  ensure-eq_ok = ensure_eq ∙ ensure_names_lem env (dedupe names) b added

  pub ensure-Ensured :
      Ensured names b (existing ++ new_tags) (record b { tags = new_tags ++ b.tags })
  ensure-Ensured = record {
    covers = λ n. ground (
      arith,
      any-append (λ t. t.name == n) existing new_tags,
      has-get_many (dedupe names) b n,
      has-missing env.db_now existing n (dedupe names),
      contains-dedupe names n,
    );
    once =
        IsUnique-append existing new_tags (get_many-IsUnique (dedupe names) b v)
          (missing-IsUnique env.db_now existing (dedupe names) (dedupe-IsUnique names))
          (λ n h. ground (arith, has-missing env.db_now existing n (dedupe names)));
    table = λ n. ground (
      arith,
      any-append (λ t. t.name == n) new_tags b.tags,
      has-get_many (dedupe names) b n,
      has-missing env.db_now existing n (dedupe names),
      contains-dedupe names n,
    );
    posts = refl;
    links = refl;
    valid = rw added at (add_tags-IsValid new_tags b v);
  }

-- On a valid database `ensure` succeeds. The tags that it returns are those of the names, each once;
-- afterwards the table holds the names and what it held, the posts and the association rows are as
-- they were, and the database is valid.
pub ensure_tags :
    (env : Platform) (names : List String) (b : Blog)
    → IsValid b
    → (tags : List Tag) × (b' : Blog) × (ensure env names b ≡ (ok tags, b'))
      × Ensured names b tags b'
ensure_tags env names b v = (
  existing env names b v ++ new_tags env names b v,
  record b { tags = new_tags env names b v ++ b.tags },
  ensure-eq_ok env names b v,
  ensure-Ensured env names b v,
)

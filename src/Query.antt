-- ===== src/Query.antt =====
-- The parts of the SELECT statements: ORDER BY lists, the join of posts with their association
-- rows, OFFSET and LIMIT, and `Result.unique()` on the entities of a result.
pub mod Order
pub mod Join
use blog_be.Prelude.{
  ℕ, ◌-◌, ◌*◌, String, Bool, true, false, not, ◌&&◌, List, [], ◌∷◌, ◌++◌, map, ◌==◌, string_eq, ltb,
  if◌then◌else◌, filter, take, drop,
}
use blog_be.Database.{Post, PostTag, post_key}

-- `desc(key)` before the rest of the list
abbrev pub desc_by {ℓ} : {A : Type ℓ} → (A → ℕ) → (A → A → Bool) → A → A → Bool
desc_by key rest a b =
    if ltb (key b) (key a) then true else if ltb (key a) (key b) then false else rest a b

-- In PostgreSQL false is below true.
abbrev pub bool_rank : Bool → ℕ
bool_rank true = 1
bool_rank false = 0

-- the rows that `tag_name == tag` leaves of the join on `post_id == id`
abbrev pub join_tag : String → List PostTag → List Post → List Post
join_tag tag links [] = []
join_tag tag links (p ∷ posts) =
    map (λ _. p) (filter (λ l. l.post_id == p.id && l.tag_name == tag) links)
    ++ join_tag tag links posts

-- `.offset((page - 1) * page_size).limit(page_size)`
unfoldable pub page_of {ℓ} : {A : Type ℓ} → ℕ → ℕ → List A → List A
page_of page page_size rows = take page_size (drop ((page - 1) * page_size) rows)

-- `.unique()`: the first occurrence of each entity
abbrev pub unique : List Post → List Post
unique [] = []
unique (p ∷ posts) = p ∷ filter (λ q. not (q.id == p.id)) (unique posts)

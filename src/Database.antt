-- ===== src/Database.antt =====
-- The tables of app/post/domain/entity.py and app/tag/domain/entity.py, with the statements that
-- the unit of work sends for them and the constraints that the database checks: the primary keys,
-- and the foreign keys of `post_tags`, which cascade on a delete and on a change of a post's id.
mod Kinds
pub mod Validity
pub mod Links
pub mod Assign
pub use Kinds.*
use blog_be.Prelude.{
  ℕ, String, ◌≡◌, Bool, true, false, not, ◌&&◌, Option, none, some, List, [], ◌∷◌, ◌++◌, map, Eq,
  ◌==◌, string_eq, if◌then◌else◌, any, All, filter, arith, ◌↔◌,
}
use blog_be.Prelude.Table.{lookup, has, update, delete, IsUnique}
use blog_be.Error.{integrity_error}
use blog_be.Exec.{ok, err, Exec, ◌>>=◌, ◌>>◌}

-- `date` counts days, the timestamps count seconds from the epoch.
pub record Post : Type 0 where
  pub id : String
  pub title : String
  pub excerpt : String
  pub content : Option String
  pub date : ℕ
  pub read_time : String
  pub kind : PostKind
  pub status : PostStatus
  pub featured : Bool
  pub views : ℕ
  pub created_at : ℕ
  pub updated_at : ℕ

pub record Tag : Type 0 where
  pub name : String
  pub created_at : ℕ

pub record PostTag : Type 0 where
  pub post_id : String
  pub tag_name : String

pub record Blog : Type 0 where
  pub posts : List Post
  pub tags : List Tag
  pub post_tags : List PostTag

-- The association row itself is its primary key.
abbrev post_tag_beq : PostTag → PostTag → Bool
post_tag_beq l m = l.post_id == m.post_id && l.tag_name == m.tag_name

pub post_tag_beq_iff : (l m : PostTag) → (post_tag_beq l m ≡ true) ↔ (l ≡ m)
post_tag_beq_iff l m =
    ground (arith, string_eq.beq_iff l.post_id m.post_id, string_eq.beq_iff l.tag_name m.tag_name)

instance abbrev pub post_tag_eq : Eq PostTag
post_tag_eq = record { beq = post_tag_beq; beq_iff = post_tag_beq_iff }

abbrev pub post_key : Post → String
post_key p = p.id

abbrev pub tag_key : Tag → String
tag_key t = t.name

abbrev pub link_key : PostTag → PostTag
link_key l = l

abbrev pub has_post : String → Blog → Bool
has_post id b = has post_key id b.posts

abbrev pub has_tag : String → Blog → Bool
has_tag name b = has tag_key name b.tags

-- INSERT INTO posts
unfoldable pub insert_post : Post → Exec Blog (Unit {0})
insert_post p b =
    if has_post p.id b then (err integrity_error, b) else (ok tt, record b { posts = p ∷ b.posts })

-- INSERT INTO tags
unfoldable pub insert_tag : Tag → Exec Blog (Unit {0})
insert_tag t b =
    if has_tag t.name b then (err integrity_error, b) else (ok tt, record b { tags = t ∷ b.tags })

-- INSERT INTO post_tags
unfoldable pub insert_link : PostTag → Exec Blog (Unit {0})
insert_link l b =
    if has_post l.post_id b && has_tag l.tag_name b && not (has link_key l b.post_tags)
    then (ok tt, record b { post_tags = l ∷ b.post_tags })
    else (err integrity_error, b)

unfoldable pub insert_links : String → List String → Exec Blog (Unit {0})
unfolding insert_link
insert_links id [] = λ b. (ok tt, b)
insert_links id (name ∷ names) = do
  insert_links id names
  insert_link (record { post_id = id; tag_name = name })

abbrev pub clear_links : String → Exec Blog (Unit {0})
clear_links id b = (ok tt, record b { post_tags = filter (λ l. not (l.post_id == id)) b.post_tags })

-- The flush of `post.tags = …`: afterwards the association rows of the post are those of the tags.
unfoldable pub assign_tags : String → List String → Exec Blog (Unit {0})
unfolding insert_links
assign_tags id names = clear_links id >> insert_links id names

-- UPDATE posts of columns other than `id`
unfoldable pub update_post : String → (Post → Post) → Exec Blog (Unit {0})
update_post id f b = (ok tt, record b { posts = update post_key id f b.posts })

abbrev pub set_id : String → Post → Post
set_id id p = record p { id = id }

abbrev pub move_link : String → String → PostTag → PostTag
move_link old new l = if l.post_id == old then record l { post_id = new } else l

-- UPDATE posts SET id = …, with ON UPDATE CASCADE on the association rows
unfoldable pub rename_post : String → String → Exec Blog (Unit {0})
rename_post old new b = if has_post new b then (err integrity_error, b) else (
  ok tt,
  record b {
    posts = update post_key old (set_id new) b.posts;
    post_tags = map (move_link old new) b.post_tags;
  },
)

-- DELETE FROM posts, with ON DELETE CASCADE on the association rows
unfoldable pub delete_post : String → Exec Blog (Unit {0})
delete_post id b = (
  ok tt,
  record b {
    posts = delete post_key id b.posts;
    post_tags = filter (λ l. not (l.post_id == id)) b.post_tags;
  },
)

-- The keys are unique, and each association row names a post and a tag that are there.
pub record IsValid (b : Blog) : Type 0 where
  pub posts_unique : IsUnique post_key b.posts
  pub tags_unique : IsUnique tag_key b.tags
  pub links_unique : IsUnique link_key b.post_tags
  pub links_posts : All (λ l. has_post l.post_id b ≡ true) b.post_tags
  pub links_tags : All (λ l. has_tag l.tag_name b ≡ true) b.post_tags

abbrev pub empty_blog : Blog
empty_blog = record { posts = []; tags = []; post_tags = [] }

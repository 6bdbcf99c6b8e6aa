-- ===== src/Post/Writes/Rename.antt =====
-- What the step `update_id` of `update` does: a new id for the post, on its row and its tags.
use blog_be.Prelude.{
  String, ◌≡◌, ◌≢◌, refl, ◌∙◌, ap, true, false, ◌||◌, some, List, [], ◌∷◌, map, ◌==◌, string_eq,
  if◌then◌else◌, All, arith, inl, inr, Bool-cases,
}
use blog_be.Prelude.Table.{
  lookup, has, update, lookup-update_self, lookup-update_ne, lookup-rename_self, lookup-rename_ne,
  has-update, has-rename,
}
use blog_be.Platform.{Platform}
use blog_be.Exec.{ok}
use blog_be.Database.{
  PostTag, Blog, IsValid, post_key, link_key, post_tag_eq, has_post, update_post, rename_post,
  move_link, set_id,
}
use blog_be.Database.Assign.{link_of}
use blog_be.Database.Validity.{update_post-IsValid, rename_post-IsValid}
use blog_be.Post.Schemas.{Field, unset, null, value, Entity}
use blog_be.Post.Repository.{exists}
use blog_be.Post.Writes.Flush.{timeless}
use blog_be.Post.Service.{update_id, rename, touch}

-- the id that a PATCH gives the post
abbrev pub new_id_of : Field String → String → String
new_id_of unset id = id
new_id_of null id = id
new_id_of (value new_id) id = new_id

-- What a rename has done.
pub record IsRenamed (new_id : String) (e : Entity) (b : Blog) (e' : Entity) (b' : Blog)
    : Type 0 where
  pub id : e'.row.id ≡ new_id
  pub columns : timeless e'.row ≡ timeless e.row
  pub stored : lookup post_key new_id b'.posts ≡ some e'.row
  pub others :
      (j : String)
      → j ≢ e.row.id
      → j ≢ new_id
      → lookup post_key j b'.posts ≡ lookup post_key j b.posts
  pub gone : e.row.id ≢ new_id → has_post e.row.id b' ≡ false
  pub links :
      (j name : String)
      → has link_key (link_of j name) b'.post_tags ≡ (
          if j == new_id
          then has link_key (link_of e.row.id name) b.post_tags
          else if j == e.row.id
          then false
          else has link_key (link_of j name) b.post_tags)
  pub valid : IsValid b'

-- the association rows after ON UPDATE CASCADE
has-move_link :
    (old new j name : String) (links : List PostTag)
    → has link_key (link_of j name) (map (move_link old new) links) ≡ (
        if j == new
        then has link_key (link_of old name) links || has link_key (link_of new name) links
        else if j == old
        then false
        else has link_key (link_of j name) links)
has-move_link old new j name [] = ground arith
has-move_link old new j name (l ∷ links) = elim (Bool-cases (l.post_id == old)) [
  | inl e ↦ rw e (
      ground (
        arith,
        has-move_link old new j name links,
        string_eq.beq_iff l.post_id old,
        string_eq.beq_iff new j,
        string_eq.beq_iff j new,
        string_eq.beq_iff old new,
        string_eq.beq_iff l.post_id j,
        string_eq.beq_iff l.post_id new,
        string_eq.beq_iff j old,
      ))
  | inr e ↦ rw e (
      ground (
        arith,
        has-move_link old new j name links,
        string_eq.beq_iff l.post_id old,
        string_eq.beq_iff l.post_id j,
        string_eq.beq_iff l.post_id new,
        string_eq.beq_iff j new,
        string_eq.beq_iff j old,
      ))
]

-- a post that is not there has no association rows
unlinked :
    (id name : String) (b : Blog) (links : List PostTag)
    → has_post id b ≡ false
    → All (λ l. has_post l.post_id b ≡ true) links
    → has link_key (link_of id name) links ≡ false
unlinked id name b [] h k = refl
unlinked id name b (l ∷ links) h k =
    ground (arith, unlinked id name b links h k.1, string_eq.beq_iff l.post_id id)

-- the post keeps its id
kept-IsRenamed :
    (e : Entity) (b : Blog)
    → IsValid b
    → lookup post_key e.row.id b.posts ≡ some e.row
    → IsRenamed e.row.id e b e b
kept-IsRenamed e b v stored = record {
  id = refl;
  columns = refl;
  stored = stored;
  others = λ j old new. refl;
  gone = λ h. absurd (h refl);
  links = λ j name. elim (Bool-cases (j == e.row.id)) [
    | inl same ↦ rw same (
        ap (λ (i : String). has link_key (link_of i name) b.post_tags)
          ((string_eq.beq_iff j e.row.id).0 same))
    | inr other ↦ rw other refl
  ];
  valid = v;
}

module _ (env : Platform) (new_id : String) (e : Entity) (b : Blog) (v : IsValid b)
    (stored : lookup post_key e.row.id b.posts ≡ some e.row)
    (free : has_post new_id b ≡ false) where
  abbrev renamed : Entity
  renamed = record { row = touch env.db_now (set_id new_id e.row); tags = e.tags }

  abbrev moved : Blog
  moved = record b {
    posts = update post_key e.row.id (set_id new_id) b.posts;
    post_tags = map (move_link e.row.id new_id) b.post_tags;
  }

  abbrev with_renamed : Blog
  with_renamed = record moved { posts = update post_key new_id (touch env.db_now) moved.posts }

  rename_post-moved : rename_post e.row.id new_id b ≡ (ok tt, moved)
  unfolding rename_post
  rename_post-moved = rw free refl

  rename-eq_ok : rename env new_id e b ≡ (ok renamed, with_renamed)
  unfolding rename exists update_post
  rename-eq_ok = rw (free, rename_post-moved) refl

  moved-IsValid : IsValid moved
  moved-IsValid = unfold rename_post in rw free at (rename_post-IsValid b v e.row.id new_id)

  renamed-IsRenamed : IsRenamed new_id e b renamed with_renamed
  renamed-IsRenamed = record {
    id = refl;
    columns = refl;
    stored =
        lookup-update_self post_key new_id (touch env.db_now) (λ p. refl) moved.posts
          {r = set_id new_id e.row}
          (lookup-rename_self post_key e.row.id new_id (set_id new_id) (λ p. refl) b.posts
            {r = e.row} free stored);
    others = λ j old new.
        lookup-update_ne post_key new_id (touch env.db_now) (λ p. refl) j moved.posts new
        ∙ lookup-rename_ne post_key e.row.id new_id (set_id new_id) (λ p. refl) j b.posts old new;
    gone = λ h.
        has-update post_key new_id (touch env.db_now) (λ p. refl) e.row.id moved.posts
        ∙ has-rename post_key e.row.id new_id (set_id new_id) (λ p. refl) e.row.id b.posts
        ∙ ground (arith, string_eq.beq_iff e.row.id new_id, string_eq.beq_iff e.row.id e.row.id);
    links = λ j name. ground (
      arith,
      has-move_link e.row.id new_id j name b.post_tags,
      unlinked new_id name b b.post_tags free v.links_posts,
    );
    valid =
        unfold update_post in
        update_post-IsValid moved moved-IsValid new_id (touch env.db_now) (λ p. refl);
  }

-- The step succeeds unless another post has the id.
pub update_id-IsRenamed :
    (env : Platform) (field : Field String) (e : Entity) (b : Blog)
    → IsValid b
    → lookup post_key e.row.id b.posts ≡ some e.row
    → (new_id_of field e.row.id ≢ e.row.id → has_post (new_id_of field e.row.id) b ≡ false)
    → (e' : Entity) × (b' : Blog) × (update_id env field e b ≡ (ok e', b'))
      × IsRenamed (new_id_of field e.row.id) e b e' b'
unfolding update_id
update_id-IsRenamed env unset e b v stored free = (e, b, refl, kept-IsRenamed e b v stored)
update_id-IsRenamed env null e b v stored free = (e, b, refl, kept-IsRenamed e b v stored)
update_id-IsRenamed env (value new_id) e b v stored free = elim (Bool-cases (new_id == e.row.id)) [
  | inl same ↦ (
    e,
    b,
    rw same refl,
    rw ((string_eq.beq_iff new_id e.row.id).0 same) (kept-IsRenamed e b v stored),
  )
  | inr other ↦
      let unused = free (λ h. ground (arith, string_eq.beq_iff new_id e.row.id)) in
      (
        renamed env new_id e b v stored unused,
        with_renamed env new_id e b v stored unused,
        rw other (rename-eq_ok env new_id e b v stored unused),
        renamed-IsRenamed env new_id e b v stored unused,
      )
]

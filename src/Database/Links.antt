-- ===== src/Database/Links.antt =====
-- Association rows under a change of a post's id.
use blog_be.Prelude.{
  String, ◌≡◌, refl, true, false, not, ◌==◌, string_eq, if◌then◌else◌, All, filter, List, [], ◌∷◌,
  map, Bool, ◌||◌, ◌∙◌, arith, Bool-cases, inl, inr,
}
use blog_be.Prelude.Table.{has, update, IsUnique, has-rename, delete, has-delete}
use blog_be.Database.{Post, PostTag, post_key, link_key, set_id, move_link, post_tag_eq}

-- The foreign keys of the association rows after the post is deleted.
pub links_survive :
    (id : String) (posts : List Post) (links : List PostTag)
    → All (λ l. has post_key l.post_id posts ≡ true) links
    → All
        (λ l. has post_key l.post_id (delete post_key id posts) ≡ true)
        (filter (λ l. not (l.post_id == id)) links)
links_survive id posts [] h = tt
links_survive id posts (l ∷ links) h =
    ground (arith, links_survive id posts links h.1, has-delete post_key id l.post_id posts)

module _ (old new : String) where
  abbrev found : String → List Post → Bool
  found j posts =
      if j == new
      then has post_key old posts || has post_key new posts
      else if j == old
      then false
      else has post_key j posts

  has_renamed :
      (j : String) (posts : List Post)
      → found j posts ≡ true
      → has post_key j (update post_key old (set_id new) posts) ≡ true
  has_renamed j posts h = has-rename post_key old new (set_id new) (λ p. refl) j posts ∙ h

  abbrev Elsewhere : PostTag → Type 0
  Elsewhere l = (l.post_id == new) ≡ false

  pub links_off_new :
      (posts : List Post) (links : List PostTag)
      → has post_key new posts ≡ false
      → All (λ l. has post_key l.post_id posts ≡ true) links
      → All Elsewhere links
  links_off_new posts [] fresh h = tt
  links_off_new posts (l ∷ links) fresh h =
      ground (arith, links_off_new posts links fresh h.1, string_eq.beq_iff l.post_id new)

  -- and after the post has the id `new`
  pub links_follow :
      (posts : List Post) (links : List PostTag)
      → All Elsewhere links
      → All (λ l. has post_key l.post_id posts ≡ true) links
      → All
          (λ l. has post_key l.post_id (update post_key old (set_id new) posts) ≡ true)
          (map (move_link old new) links)
  links_follow posts [] k h = tt
  links_follow posts (l ∷ links) k h = elim (Bool-cases (l.post_id == old)) [
    | inl e ↦ rw e (
      has_renamed new posts
          (ground (arith, string_eq.beq_iff new new, string_eq.beq_iff l.post_id old)),
      links_follow posts links k.1 h.1,
    )
    | inr e ↦ rw e (has_renamed l.post_id posts (ground arith), links_follow posts links k.1 h.1)
  ]

  has-move :
      (l : PostTag) (links : List PostTag)
      → Elsewhere l
      → All Elsewhere links
      → has link_key (move_link old new l) (map (move_link old new) links) ≡ has link_key l links
  has-move l [] k h = refl
  has-move l (m ∷ links) k h = ground (
    arith,
    has-move l links k h.1,
    string_eq.beq_iff l.post_id old,
    string_eq.beq_iff m.post_id old,
    string_eq.beq_iff m.post_id l.post_id,
    string_eq.beq_iff new new,
    string_eq.beq_iff new l.post_id,
    string_eq.beq_iff m.post_id new,
    string_eq.beq_iff l.post_id new,
  )

  pub move-IsUnique :
      (links : List PostTag)
      → All Elsewhere links
      → IsUnique link_key links
      → IsUnique link_key (map (move_link old new) links)
  move-IsUnique [] h u = tt
  move-IsUnique (l ∷ links) h u =
      ground (arith, move-IsUnique links h.1 u.1, has-move l links h.0 h.1)

  pub All-move :
      (P : String → Type 0) (links : List PostTag)
      → All (λ l. P l.tag_name) links
      → All (λ l. P l.tag_name) (map (move_link old new) links)
  All-move P [] h = tt
  All-move P (l ∷ links) h = elim (Bool-cases (l.post_id == old)) [
    | inl e ↦ rw e (h.0, All-move P links h.1)
    | inr e ↦ rw e (h.0, All-move P links h.1)
  ]

-- ===== src/Tag/Counts.antt =====
-- The counts of the tag list and of the tag page agree with the posts that are listed.
use mathlib.Core.Path.{subst}
use mathlib.Core.List.{Perm}
use blog_be.Prelude.{
  ◌+◌, String, ◌≡◌, refl, ◌∙◌, ap, Bool, ◌&&◌, List, [], ◌∷◌, map, ◌==◌, string_eq, if◌then◌else◌,
  ltb, ◌||◌, nat_eq, Option, none, some, Option-cases, inl, inr, filter, filter-filter, length,
  length-append, filter-append, arith,
}
use blog_be.Prelude.Table.{lookup, key-lookup, filter-IsUnique}
use blog_be.Prelude.Sort.{IsOrder, IsSorted, sort-IsSorted, sort, perm-sort, length-sort}
use blog_be.Prelude.Unique.{sort-IsUnique}
use blog_be.Platform.{Platform, IsCollation}
use blog_be.Error.{tag_not_found}
use blog_be.Exec.{Result, ok, err}
use blog_be.Query.{join_tag, desc_by}
use blog_be.Query.Order.{desc_by-IsOrder, asc_by-IsOrder}
use blog_be.Query.Join.{is_tagged, join_tag-eq-filter, unique_lem}
use blog_be.Database.{Tag, published, tag_key, Post, PostTag, Blog, IsValid, post_key, status_eq}
use blog_be.Tag.{
  is_published, post_count, get_count, list_by_tag, get, get_detail, list_with_counts, TagRead,
  TagDetailResponse, tag_order,
}

-- One more association row adds the published posts that it joins.
join_tag-cons :
    (name : String) (l : PostTag) (links : List PostTag) (posts : List Post)
    → length (filter is_published (join_tag name (l ∷ links) posts))
      ≡ (if l.tag_name == name
          then length (filter (λ p. p.id == l.post_id && is_published p) posts)
          else 0)
        + length (filter is_published (join_tag name links posts))
join_tag-cons name l links [] = ground arith
join_tag-cons name l links (p ∷ posts) =
    let own : List Post =
      map (λ _. p) (filter (λ m. m.post_id == p.id && m.tag_name == name) links) in
    let wide : List Post = join_tag name (l ∷ links) posts in
    let narrow : List Post = join_tag name links posts in
    ground (
      arith,
      join_tag-cons name l links posts,
      filter-append is_published own wide,
      filter-append is_published own narrow,
      length-append (filter is_published own) (filter is_published wide),
      length-append (filter is_published own) (filter is_published narrow),
      string_eq.beq_iff l.post_id p.id,
      string_eq.beq_iff p.id l.post_id,
    )

join_tag-nil :
    (name : String) (posts : List Post) → 0 ≡ length (filter is_published (join_tag name [] posts))
join_tag-nil name [] = refl
join_tag-nil name (p ∷ posts) = join_tag-nil name posts

post_count-eq :
    (name : String) (posts : List Post) (links : List PostTag)
    → post_count name posts links ≡ length (filter is_published (join_tag name links posts))
unfolding post_count
post_count-eq name posts [] = join_tag-nil name posts
post_count-eq name posts (l ∷ links) =
    ground (arith, post_count-eq name posts links, join_tag-cons name l links posts)

-- a published post with the tag
abbrev pub shows : Blog → String → Post → Bool
shows b name p = p.status == published && is_tagged b.post_tags name p

abbrev pub posts_with : Blog → String → List Post
posts_with b name = filter (shows b name) b.posts

-- the tags with the numbers of their posts
abbrev pub counted : Blog → List Tag → List TagRead
counted b tags = map (λ t. record { name = t.name; count = length (posts_with b t.name) }) tags

module _ (env : Platform) where
  -- the later post first, then the one with the lesser id
  abbrev pub is_later : Post → Post → Bool
  is_later p q = ltb q.date p.date || (p.date == q.date && env.text_le p.id q.id)

  -- the tag with more posts first, then the one with the lesser name
  abbrev pub is_busier : TagRead → TagRead → Bool
  is_busier s t = ltb t.count s.count || (s.count == t.count && env.text_le s.name t.name)

  -- What a tag page shows: the posts with the tag, sorted, beside their number; or a 404.
  abbrev pub IsTagPage : Blog → String → Option Tag → Result TagDetailResponse × Blog → Type 0
  IsTagPage b name none answer = answer ≡ (err (tag_not_found name), b)
  IsTagPage b name (some tag) answer =
      (posts : List Post) × (answer
        ≡ (ok (record { tag = record { name = name; count = length posts }; posts = posts }), b))
      × Perm posts (posts_with b name)
      × IsSorted is_later posts

  -- What the tag list shows: every tag with the number of its posts, sorted.
  pub record IsTagList (b : Blog) (tags : List TagRead) : Type 0 where
    pub exactly : Perm tags (counted b b.tags)
    pub sorted : IsSorted is_busier tags

tagged_rows-eq :
    (b : Blog) (v : IsValid b) (name : String)
    → filter is_published (join_tag name b.post_tags b.posts) ≡ posts_with b name
tagged_rows-eq b v name =
    ap (filter is_published) (join_tag-eq-filter name b.post_tags b.posts v.links_unique)
    ∙ filter-filter is_published (is_tagged b.post_tags name) b.posts
    ∙ ap (λ (f : Post → Bool). filter f b.posts) (λ i p. both p i)
  where
    both : (p : Post) → (is_tagged b.post_tags name p && is_published p) ≡ shows b name p
    both p = ground arith

module _ (env : Platform) (col : IsCollation env.text_le) (b : Blog) (v : IsValid b) where
  is_later-eq : desc_by (λ (p : Post). p.date) (λ p q. env.text_le p.id q.id) ≡ is_later env
  is_later-eq i p q =
      let e : desc_by (λ (r : Post). r.date) (λ r t. env.text_le r.id t.id) p q ≡ is_later env p q =
        ground arith in
      e i

  is_later-IsOrder : IsOrder (is_later env)
  is_later-IsOrder =
      subst IsOrder is_later-eq
        (desc_by-IsOrder (λ p. p.date) _ (asc_by-IsOrder post_key col.order))

  is_busier-eq : tag_order env ≡ is_busier env
  is_busier-eq i s t = let e : tag_order env s t ≡ is_busier env s t = ground arith in e i

  is_busier-IsOrder : IsOrder (is_busier env)
  is_busier-IsOrder =
      subst IsOrder is_busier-eq
        (desc_by-IsOrder (λ t. t.count) _ (asc_by-IsOrder (λ t. t.name) col.order))

  list_by_tag-eq :
      (name : String) → list_by_tag env name b ≡ sort (is_later env) (posts_with b name)
  unfolding list_by_tag
  list_by_tag-eq name = rw (tagged_rows-eq b v name) (
      rw is_later-eq (
        unique_lem _ (
          sort-IsUnique post_key (is_later env) _
            (filter-IsUnique post_key (shows b name) b.posts v.posts_unique))))

  get_detail-IsTagPage :
      (name : String) → IsTagPage env b name (lookup tag_key name b.tags) (get_detail env name b)
  unfolding get_detail get get_count
  get_detail-IsTagPage name = elim (Option-cases (lookup tag_key name b.tags)) [
    | inl absent ↦ rw absent refl
    | inr (tag, present) ↦
        let own : tag.name ≡ name = key-lookup tag_key name b.tags present in
        let rows = sort (is_later env) (posts_with b name) in
        rw present (
          rows,
          rw (list_by_tag-eq name) (
              rw (tagged_rows-eq b v name)
                (rw own (rw (length-sort (is_later env) (posts_with b name)) refl))),
          perm-sort (is_later env) (posts_with b name),
          sort-IsSorted (is_later env) is_later-IsOrder (posts_with b name),
        )
  ]

  counted-eq :
      (tags : List Tag)
      → map {B = TagRead}
          (λ t. record { name = t.name; count = post_count t.name b.posts b.post_tags })
          tags
        ≡ counted b tags
  counted-eq [] = refl
  counted-eq (t ∷ tags) =
      let count : post_count t.name b.posts b.post_tags ≡ length (posts_with b t.name) =
        post_count-eq t.name b.posts b.post_tags ∙ ap length (tagged_rows-eq b v t.name) in
      let first : TagRead = record { name = t.name; count = length (posts_with b t.name) } in
      rw count (ap (λ l. first ∷ l) (counted-eq tags))

  list_with_counts-IsTagList : IsTagList env b (list_with_counts env b)
  unfolding list_with_counts
  list_with_counts-IsTagList = rw (counted-eq b.tags) (
      rw is_busier-eq (record {
        exactly = perm-sort (is_busier env) (counted b b.tags);
        sorted = sort-IsSorted (is_busier env) is_busier-IsOrder (counted b b.tags);
      }))

  -- On a valid database the page of a tag shows exactly the published posts that have the tag, the
  -- latest first and then by id, and as its count their number; the page of a name without a tag is a
  -- 404; and the tag list has every tag with the number of the published posts that have it, the
  -- greatest number first and then by name.
  pub tag_counts_agree :
      (name : String)
      → IsTagPage env b name (lookup tag_key name b.tags) (get_detail env name b)
        × IsTagList env b (list_with_counts env b)
  tag_counts_agree name = (get_detail-IsTagPage name, list_with_counts-IsTagList)

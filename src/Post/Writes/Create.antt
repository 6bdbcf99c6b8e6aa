-- ===== src/Post/Writes/Create.antt =====
-- `create`: a slug that is taken is refused, and any other call stores the post with its tags.
use blog_be.Prelude.{
  String, ◌≡◌, refl, true, false, List, [], ◌∷◌, ◌++◌, map, ◌==◌, string_eq, if◌then◌else◌, any,
  All, arith,
}
use blog_be.Prelude.Table.{has, IsUnique}
use blog_be.Platform.{Platform, slugify, normalize_tag}
use blog_be.Error.{slug_conflict}
use blog_be.Exec.{ok, err}
use blog_be.Database.{
  Tag, Blog, IsValid, tag_key, link_key, post_tag_eq, has_post, has_tag, insert_post, assign_tags,
}
use blog_be.Database.Assign.{link_of, links_of, others, assign_tags_lem, assigned_links}
use blog_be.Database.Validity.{insert_post-IsValid, assign_tags-IsValid}
use blog_be.Tag.{contains}
use blog_be.Tag.Ensure.{Ensured, existing, new_tags, ensure-eq_ok, ensure-Ensured}
use blog_be.Post.Schemas.{PostCreate, Entity}
use blog_be.Post.Repository.{exists}
use blog_be.Post.Service.{create, or_slug, new_post, tag_names}

-- the names of rows that a table holds are known tags
tag_names-known :
    (b : Blog) (tags : List Tag)
    → ((n : String) → has tag_key n tags ≡ true → has_tag n b ≡ true)
    → All (λ n. has_tag n b ≡ true) (map (λ (t : Tag). t.name) tags)
tag_names-known b [] h = tt
tag_names-known b (t ∷ tags) h = (
  h t.name (ground (arith, string_eq.beq_iff t.name t.name)),
  tag_names-known b tags (λ n k. h n (ground arith)),
)

pub any-tag_names :
    (n : String) (tags : List Tag)
    → any (λ m. m == n) (map (λ (t : Tag). t.name) tags) ≡ has tag_key n tags
any-tag_names n [] = refl
any-tag_names n (t ∷ tags) = ground (arith, any-tag_names n tags)

tag_names-IsUnique :
    (tags : List Tag)
    → IsUnique tag_key tags
    → IsUnique (λ (n : String). n) (map (λ (t : Tag). t.name) tags)
tag_names-IsUnique [] u = tt
tag_names-IsUnique (t ∷ tags) u =
    ground (arith, any-tag_names t.name tags, tag_names-IsUnique tags u.1)

module _ (env : Platform) (names : List String) (b : Blog) (v : IsValid b) where
  abbrev pub tags_for : List Tag
  tags_for = existing env names b v ++ new_tags env names b v

  abbrev pub tagged : Blog
  tagged = record b { tags = new_tags env names b v ++ b.tags }

  pub tags_for-Ensured : Ensured names b tags_for tagged
  tags_for-Ensured = ensure-Ensured env names b v

  -- On any state with these tags, the post's tags can be assigned.
  pub assign_ensured :
      (id : String) (c : Blog)
      → c.tags ≡ tagged.tags
      → has_post id c ≡ true
      → assign_tags id (tag_names env tags_for) c ≡ (
        ok tt,
        record c { post_tags = links_of id (tag_names env tags_for) ++ others id c.post_tags },
      )
  assign_ensured id c same there =
      assign_tags_lem id (tag_names env tags_for) c there
        (tag_names-known c tags_for
          (λ n h. rw same (ground (arith, tags_for-Ensured.covers n, tags_for-Ensured.table n))))
        (tag_names-IsUnique tags_for tags_for-Ensured.once)

module _ (env : Platform) (payload : PostCreate) (b : Blog) (v : IsValid b) where
  abbrev pub slug_of : String
  slug_of = or_slug payload.id (slugify env payload.title)

  abbrev pub wanted : List String
  wanted = map (normalize_tag env) payload.tags

  abbrev pub created : Entity
  created = record {
    row = new_post env slug_of payload;
    tags = tag_names env (tags_for env wanted b v);
  }

  abbrev pub with_created : Blog
  with_created = record {
    posts = created.row ∷ b.posts;
    tags = new_tags env wanted b v ++ b.tags;
    post_tags = links_of slug_of created.tags ++ others slug_of b.post_tags;
  }

  -- A slug that is taken is a conflict and changes nothing.
  pub create_taken :
      exists slug_of b ≡ true → create env payload b ≡ (err (slug_conflict slug_of), b)
  unfolding create
  create_taken h = rw h

  inserted :
      has_post slug_of b ≡ false
      → insert_post created.row (tagged env wanted b v)
        ≡ (ok tt, record (tagged env wanted b v) { posts = created.row ∷ b.posts })
  inserted h = unfold insert_post in rw h refl

  assigned :
      assign_tags slug_of created.tags
        (record (tagged env wanted b v) { posts = created.row ∷ b.posts })
      ≡ (ok tt, with_created)
  assigned =
      assign_ensured env wanted b v slug_of
        (record (tagged env wanted b v) { posts = created.row ∷ b.posts }) refl
        (ground (arith, string_eq.beq_iff slug_of slug_of))

  pub create_free : has_post slug_of b ≡ false → create env payload b ≡ (ok created, with_created)
  unfolding create exists
  create_free h = rw (h, ensure-eq_ok env wanted b v, inserted h, assigned) refl

  with_created-IsValid : has_post slug_of b ≡ false → IsValid with_created
  with_created-IsValid h = rw assigned at (
      assign_tags-IsValid slug_of created.tags _ (
        rw (inserted h) at (
          insert_post-IsValid (tagged env wanted b v) (tags_for-Ensured env wanted b v).valid
            created.row)))

  pub created_tags :
      (j name : String)
      → has link_key (link_of j name) with_created.post_tags
        ≡ (if j == slug_of then contains wanted name else has link_key (link_of j name) b.post_tags)
  created_tags j name = ground (
    arith,
    assigned_links slug_of j name created.tags b.post_tags,
    any-tag_names name (tags_for env wanted b v),
    (tags_for-Ensured env wanted b v).covers name,
  )

-- What a `create` with a free slug has done: it returns the new post, which is added to the posts;
-- the post has the normalized tags of the request and every other post the tags it had.
pub record IsCreated (env : Platform) (payload : PostCreate) (b : Blog) (e : Entity) (b' : Blog)
    : Type 0 where
  pub posts : b'.posts ≡ e.row ∷ b.posts
  pub row : e.row ≡ record {
    id = or_slug payload.id (slugify env payload.title);
    title = payload.title;
    excerpt = payload.excerpt;
    content = payload.content;
    date = payload.date;
    read_time = payload.read_time;
    kind = payload.kind;
    status = payload.status;
    featured = payload.featured;
    views = 0;
    created_at = env.db_now;
    updated_at = env.db_now;
  }
  pub id : e.row.id ≡ or_slug payload.id (slugify env payload.title)
  pub tags :
      (j name : String)
      → has link_key (link_of j name) b'.post_tags ≡ (
          if j == e.row.id
          then contains (map (normalize_tag env) payload.tags) name
          else has link_key (link_of j name) b.post_tags)
  pub valid : IsValid b'

-- On a valid database `create` with a free slug succeeds and stores the post, as `IsCreated` says.
pub create_stores :
    (env : Platform) (payload : PostCreate) (b : Blog)
    → IsValid b
    → has_post (or_slug payload.id (slugify env payload.title)) b ≡ false
    → (e : Entity) × (b' : Blog) × (create env payload b ≡ (ok e, b'))
      × IsCreated env payload b e b'
create_stores env payload b v h = (
  created env payload b v,
  with_created env payload b v,
  create_free env payload b v h,
  record {
    posts = refl;
    row = refl;
    id = refl;
    tags = created_tags env payload b v;
    valid = with_created-IsValid env payload b v h;
  },
)

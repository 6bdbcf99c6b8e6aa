-- ===== src/Post/Writes/Edit.antt =====
-- `update`: a PATCH stores what was sent, on the post and on its tags, and nothing else.
use blog_be.Prelude.{
  String, ◌≡◌, ◌≢◌, refl, ◌∙◌, ap, sym, false, some, ◌==◌, nat_eq, bool_eq, option_eq, string_eq,
  if◌then◌else◌, arith,
}
use blog_be.Prelude.Table.{lookup, has, update, lookup-update_ne, has-update, key-lookup}
use blog_be.Platform.{Platform}
use blog_be.Exec.{ok}
use blog_be.Database.{
  Post, Blog, IsValid, post_key, link_key, post_tag_eq, has_post, update_post, kind_eq, status_eq,
}
use blog_be.Database.Assign.{link_of}
use blog_be.Database.Validity.{update_post-IsValid}
use blog_be.Post.Schemas.{PostUpdate, Entity}
use blog_be.Post.Repository.{get_by_id}
use blog_be.Post.Service.{
  update_fields, require_post, update_tags, load, flushed, set_columns, get_or, content_or,
}
use blog_be.Post.Writes.Update.{lookup-flushed, keeps_id}
use blog_be.Post.Writes.Flush.{timeless-flushed}
use blog_be.Post.Writes.Rename.{new_id_of, update_id-IsRenamed}
use blog_be.Post.Writes.Retag.{tag_after, IsRetagged, update_tags-IsRetagged}

-- What a PATCH has done: the post has the columns that were sent and its other columns, under the id
-- that was sent or its own; it has the normalized tags that were sent, or its own; and every other
-- post has the row and the tags it had.
pub record IsEdited (env : Platform) (post_id : String) (payload : PostUpdate) (p : Post) (b : Blog)
    (e : Entity) (b' : Blog) : Type 0 where
  pub title : e.row.title ≡ get_or payload.title p.title
  pub excerpt : e.row.excerpt ≡ get_or payload.excerpt p.excerpt
  pub content : e.row.content ≡ content_or payload.content p.content
  pub date : e.row.date ≡ get_or payload.date p.date
  pub read_time : e.row.read_time ≡ get_or payload.read_time p.read_time
  pub kind : e.row.kind ≡ get_or payload.kind p.kind
  pub featured : e.row.featured ≡ get_or payload.featured p.featured
  pub status : e.row.status ≡ get_or payload.status p.status
  pub views : e.row.views ≡ p.views
  pub created_at : e.row.created_at ≡ p.created_at
  pub stored : lookup post_key (new_id_of payload.id post_id) b'.posts ≡ some e.row
  pub others :
      (j : String)
      → j ≢ post_id
      → j ≢ new_id_of payload.id post_id
      → lookup post_key j b'.posts ≡ lookup post_key j b.posts
  pub gone : post_id ≢ new_id_of payload.id post_id → has_post post_id b' ≡ false
  pub links :
      (j name : String)
      → has link_key (link_of j name) b'.post_tags ≡ (
          if j == new_id_of payload.id post_id
          then tag_after env payload.tags name (has link_key (link_of post_id name) b.post_tags)
          else if j == post_id
          then false
          else has link_key (link_of j name) b.post_tags)
  pub valid : IsValid b'

module _ (env : Platform) (post_id : String) (payload : PostUpdate) (b : Blog) (v : IsValid b)
    (p : Post) (found : lookup post_key post_id b.posts ≡ some p) where
  abbrev pub change : Post → Post
  change = flushed env (set_columns payload)

  abbrev pub written : Blog
  written = record b { posts = update post_key post_id change b.posts }

  abbrev pub loaded : Entity
  loaded = record (load env p b) { row = change p }

  pub same_id : (change p).id ≡ post_id
  same_id = keeps_id env payload p ∙ key-lookup post_key post_id b.posts {r = p} found

  pub written-IsValid : IsValid written
  written-IsValid =
      unfold update_post in update_post-IsValid b v post_id change (keeps_id env payload)

  pub written_stored : lookup post_key (change p).id written.posts ≡ some (change p)
  written_stored = lookup-flushed env payload post_id b.posts {p = p} found

  tag_links :
      (e : Entity) (c : Blog)
      → IsRetagged env payload.tags loaded written e c
      → (j name : String)
      → has link_key (link_of j name) c.post_tags ≡ (
          let before = has link_key (link_of j name) b.post_tags in
          if j == post_id then tag_after env payload.tags name before else before)
  tag_links e c t j name =
      t.links j name
      ∙ ap
          (λ (i : String).
            let before = has link_key (link_of j name) b.post_tags in
            if j == i then tag_after env payload.tags name before else before)
          same_id

  after_tags :
      (e : Entity) (c : Blog)
      → update_tags env payload.tags loaded written ≡ (ok e, c)
      → IsRetagged env payload.tags loaded written e c
      → (new_id_of payload.id post_id ≢ post_id → has_post (new_id_of payload.id post_id) b ≡ false)
      → (e' : Entity) × (b' : Blog) × (update_fields env post_id payload b ≡ (ok e', b'))
        × IsEdited env post_id payload p b e' b'
  unfolding update_fields require_post get_by_id update_post
  after_tags e c run t free =
      let own = t.id ∙ same_id in
      let (e', b', last, r) =
        update_id-IsRenamed env payload.id e c t.valid
          (ap (λ (i : String). lookup post_key i c.posts) t.id ∙ t.stored)
          (rw own (λ moves.
            t.posts (new_id_of payload.id post_id)
            ∙ has-update post_key post_id change (keeps_id env payload)
                (new_id_of payload.id post_id) b.posts
            ∙ free moves)) in
      let columns =
        r.columns ∙ t.columns ∙ timeless-flushed env (set_columns payload) p refl refl in
      (
        e',
        b',
        rw (found, run, last) refl,
        record {
          title = ap (λ q. q.title) columns;
          excerpt = ap (λ q. q.excerpt) columns;
          content = ap (λ q. q.content) columns;
          date = ap (λ q. q.date) columns;
          read_time = ap (λ q. q.read_time) columns;
          kind = ap (λ q. q.kind) columns;
          featured = ap (λ q. q.featured) columns;
          status = ap (λ q. q.status) columns;
          views = ap (λ q. q.views) columns;
          created_at = ap (λ q. q.created_at) columns;
          stored =
              ap (λ (i : String). lookup post_key (new_id_of payload.id i) b'.posts) (sym own)
              ∙ r.stored;
          others = λ j old new.
              r.others j (rw own old) (rw own new)
              ∙ t.others j (rw same_id old)
              ∙ lookup-update_ne post_key post_id change (keeps_id env payload) j b.posts old;
          gone = λ moves. ap (λ (i : String). has_post i b') (sym own) ∙ r.gone (rw own moves);
          links = λ j name.
              r.links j name
              ∙ rw own (
                  ground (
                    arith,
                    tag_links e c t post_id name,
                    tag_links e c t j name,
                    string_eq.beq_iff j post_id,
                    string_eq.beq_iff post_id post_id,
                  ));
          valid = r.valid;
        },
      )

-- On a valid database a PATCH of a post that is there, under an id that no other post has, succeeds
-- and stores the post as `IsEdited` says.
pub patch_stores :
    (env : Platform) (post_id : String) (payload : PostUpdate) (b : Blog) (p : Post)
    → IsValid b
    → get_by_id post_id b ≡ some p
    → (new_id_of payload.id post_id ≢ post_id → has_post (new_id_of payload.id post_id) b ≡ false)
    → (e : Entity) × (b' : Blog) × (update_fields env post_id payload b ≡ (ok e, b'))
      × IsEdited env post_id payload p b e b'
unfolding get_by_id
patch_stores env post_id payload b p v found free =
    let (e, c, run, t) =
      update_tags-IsRetagged env payload.tags (loaded env post_id payload b v p found)
        (written env post_id payload b v p found) (written-IsValid env post_id payload b v p found)
        (written_stored env post_id payload b v p found) in
    after_tags env post_id payload b v p found e c run t free

-- ===== src/Post/Writes/Retag.antt =====
-- What the step `update_tags` of `update` does: the tags of the request, if it sent any.
use blog_be.Prelude.{
  String, ◌≡◌, ◌≢◌, refl, Bool, true, some, List, ◌++◌, map, ◌==◌, string_eq, if◌then◌else◌, arith,
}
use blog_be.Prelude.Table.{
  lookup, has, lookup-update_self, lookup-update_ne, has-update, has_of_lookup,
}
use blog_be.Platform.{Platform, normalize_tag}
use blog_be.Exec.{ok}
use blog_be.Database.{
  Blog, IsValid, post_key, link_key, post_tag_eq, has_post, update_post, assign_tags,
}
use blog_be.Database.Assign.{link_of, links_of, others, assigned_links}
use blog_be.Database.Validity.{update_post-IsValid, assign_tags-IsValid}
use blog_be.Tag.{contains}
use blog_be.Tag.Ensure.{ensure-eq_ok}
use blog_be.Post.Schemas.{Field, unset, null, value, Entity}
use blog_be.Post.Service.{update_tags, tag_names, touch}
use blog_be.Post.Writes.Create.{tags_for, tags_for-Ensured, any-tag_names, tagged, assign_ensured}
use blog_be.Post.Writes.Flush.{timeless}

module _ (env : Platform) (names : List String) (e : Entity) (b : Blog) (v : IsValid b) where
  abbrev pub wanted_tags : List String
  wanted_tags = map (normalize_tag env) names

  abbrev pub retagged : Blog
  retagged =
      let c = tagged env wanted_tags b v in
      record c {
        post_tags =
            links_of e.row.id (tag_names env (tags_for env wanted_tags b v))
            ++ others e.row.id c.post_tags;
      }

  reassigned :
      has_post e.row.id b ≡ true
      → assign_tags e.row.id
          (tag_names env (tags_for env wanted_tags b v))
          (tagged env wanted_tags b v)
        ≡ (ok tt, retagged)
  reassigned there =
      assign_ensured env wanted_tags b v e.row.id (tagged env wanted_tags b v) refl there

  pub retagged-IsValid : has_post e.row.id b ≡ true → IsValid retagged
  retagged-IsValid there = rw (reassigned there) at (
      assign_tags-IsValid e.row.id (tag_names env (tags_for env wanted_tags b v)) _
        (tags_for-Ensured env wanted_tags b v).valid)

  pub update_tags-value :
      has_post e.row.id b ≡ true
      → update_tags env (value names) e b ≡ (
        ok (record {
          row = touch env.app_now e.row;
          tags = tag_names env (tags_for env wanted_tags b v);
        }),
        (update_post e.row.id (touch env.app_now) retagged).1,
      )
  unfolding update_tags update_post
  update_tags-value there = rw (ensure-eq_ok env wanted_tags b v, reassigned there) refl

-- whether the post has a tag afterwards, where it had it before or not
abbrev pub tag_after : Platform → Field (List String) → String → Bool → Bool
tag_after env unset name before = before
tag_after env null name before = before
tag_after env (value names) name before = contains (map (normalize_tag env) names) name

-- What the step has done.
pub record IsRetagged (env : Platform) (field : Field (List String)) (e : Entity) (b : Blog)
    (e' : Entity) (b' : Blog) : Type 0 where
  pub id : e'.row.id ≡ e.row.id
  pub columns : timeless e'.row ≡ timeless e.row
  pub stored : lookup post_key e.row.id b'.posts ≡ some e'.row
  pub others : (j : String) → j ≢ e.row.id → lookup post_key j b'.posts ≡ lookup post_key j b.posts
  pub posts : (j : String) → has_post j b' ≡ has_post j b
  pub links :
      (j name : String)
      → has link_key (link_of j name) b'.post_tags ≡ (
          let before = has link_key (link_of j name) b.post_tags in
          if j == e.row.id then tag_after env field name before else before)
  pub valid : IsValid b'

kept-IsRetagged :
    (env : Platform) (field : Field (List String)) (e : Entity) (b : Blog)
    → ((name : String) (before : Bool) → tag_after env field name before ≡ before)
    → IsValid b
    → lookup post_key e.row.id b.posts ≡ some e.row
    → IsRetagged env field e b e b
kept-IsRetagged env field e b same v stored = record {
  id = refl;
  columns = refl;
  stored = stored;
  others = λ j h. refl;
  posts = λ j. refl;
  links = λ j name. ground (arith, same name (has link_key (link_of j name) b.post_tags));
  valid = v;
}

module _ (env : Platform) (names : List String) (e : Entity) (b : Blog) (v : IsValid b)
    (stored : lookup post_key e.row.id b.posts ≡ some e.row) where
  there : has_post e.row.id b ≡ true
  there = has_of_lookup post_key e.row.id b.posts {r = e.row} stored

  abbrev stamped : Blog
  stamped = (update_post e.row.id (touch env.app_now) (retagged env names e b v)).1

  abbrev new_entity : Entity
  new_entity = record {
    row = touch env.app_now e.row;
    tags = tag_names env (tags_for env (wanted_tags env names e b v) b v);
  }

  stamped-IsRetagged : IsRetagged env (value names) e b new_entity stamped
  unfolding update_post
  stamped-IsRetagged = record {
    id = refl;
    columns = refl;
    stored =
        lookup-update_self post_key e.row.id (touch env.app_now) (λ p. refl) b.posts {r = e.row}
          stored;
    others = λ j h. lookup-update_ne post_key e.row.id (touch env.app_now) (λ p. refl) j b.posts h;
    posts = λ j. has-update post_key e.row.id (touch env.app_now) (λ p. refl) j b.posts;
    links = λ j name. ground (
      arith,
      assigned_links e.row.id j name
          (tag_names env (tags_for env (wanted_tags env names e b v) b v)) b.post_tags,
      any-tag_names name (tags_for env (wanted_tags env names e b v) b v),
      (tags_for-Ensured env (wanted_tags env names e b v) b v).covers name,
    );
    valid =
        unfold update_post in
        update_post-IsValid (retagged env names e b v) (retagged-IsValid env names e b v there)
          e.row.id (touch env.app_now) (λ p. refl);
  }

-- The step succeeds for a post that is there.
pub update_tags-IsRetagged :
    (env : Platform) (field : Field (List String)) (e : Entity) (b : Blog)
    → IsValid b
    → lookup post_key e.row.id b.posts ≡ some e.row
    → (e' : Entity) × (b' : Blog) × (update_tags env field e b ≡ (ok e', b'))
      × IsRetagged env field e b e' b'
update_tags-IsRetagged env unset e b v stored =
    (e, b, unfold update_tags in refl, kept-IsRetagged env unset e b (λ name before. refl) v stored)
update_tags-IsRetagged env null e b v stored =
    (e, b, unfold update_tags in refl, kept-IsRetagged env null e b (λ name before. refl) v stored)
update_tags-IsRetagged env (value names) e b v stored = (
  new_entity env names e b v stored,
  stamped env names e b v stored,
  update_tags-value env names e b v (there env names e b v stored),
  stamped-IsRetagged env names e b v stored,
)

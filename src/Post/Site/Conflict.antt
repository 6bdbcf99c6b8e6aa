-- ===== src/Post/Site/Conflict.antt =====
-- A PATCH under an id that another post has.
use blog_be.Prelude.{String, ◌≡◌, ◌≢◌, refl, ◌∙◌, true, some, ◌==◌, string_eq, inl, inr, Bool-cases}
use blog_be.Prelude.Table.{lookup, has-update}
use blog_be.Platform.{Platform}
use blog_be.Error.{slug_conflict}
use blog_be.Exec.{err}
use blog_be.Database.{Post, Blog, IsValid, post_key, has_post, update_post}
use blog_be.Post.Schemas.{PostUpdate, Field, unset, null, value, Entity}
use blog_be.Post.Repository.{get_by_id, exists}
use blog_be.Post.Service.{update_fields, update_id, rename, require_post}
use blog_be.Post.Writes.Update.{keeps_id}
use blog_be.Post.Writes.Rename.{new_id_of}
use blog_be.Post.Writes.Retag.{update_tags-IsRetagged}
use blog_be.Post.Writes.Edit.{change, written, loaded, same_id, written-IsValid, written_stored}

update_id_taken :
    (env : Platform) (field : Field String) (e : Entity) (b : Blog)
    → new_id_of field e.row.id ≢ e.row.id
    → has_post (new_id_of field e.row.id) b ≡ true
    → update_id env field e b ≡ (err (slug_conflict (new_id_of field e.row.id)), b)
unfolding update_id rename exists
update_id_taken env unset e b moves taken = absurd (moves refl)
update_id_taken env null e b moves taken = absurd (moves refl)
update_id_taken env (value new_id) e b moves taken = elim (Bool-cases (new_id == e.row.id)) [
  | inl same ↦ absurd (moves ((string_eq.beq_iff new_id e.row.id).0 same))
  | inr other ↦ rw (other, taken) refl
]

-- The request is refused, after its columns and its tags are written.
pub patch_taken :
    (env : Platform) (post_id : String) (payload : PostUpdate) (b : Blog) (p : Post)
    → IsValid b
    → lookup post_key post_id b.posts ≡ some p
    → new_id_of payload.id post_id ≢ post_id
    → has_post (new_id_of payload.id post_id) b ≡ true
    → (c : Blog) × (update_fields env post_id payload b
        ≡ (err (slug_conflict (new_id_of payload.id post_id)), c))
unfolding update_fields require_post get_by_id update_post
patch_taken env post_id payload b p v found moves taken =
    let (e, c, run, t) =
      update_tags-IsRetagged env payload.tags (loaded env post_id payload b v p found)
        (written env post_id payload b v p found) (written-IsValid env post_id payload b v p found)
        (written_stored env post_id payload b v p found) in
    let own : e.row.id ≡ post_id = t.id ∙ same_id env post_id payload b v p found in
    let there =
      t.posts (new_id_of payload.id post_id)
      ∙ has-update post_key post_id (change env post_id payload b v p found) (keeps_id env payload)
          (new_id_of payload.id post_id) b.posts
      ∙ taken in
    let last = update_id_taken env payload.id e c (rw own moves) (rw own there) in
    (c, rw (found, run, last, own) refl)

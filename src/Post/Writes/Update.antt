-- ===== src/Post/Writes/Update.antt =====
-- `update`, `delete` and `publish` keep the constraints and violate none.
use blog_be.Prelude.{
  String, ◌≡◌, ◌≢◌, refl, ◌∙◌, true, false, some, List, ◌==◌, string_eq, arith, inl, inr,
  Bool-cases, Option-cases,
}
use blog_be.Prelude.Table.{lookup-update_self, lookup, update, key-lookup, has_of_lookup}
use blog_be.Platform.{Platform}
use blog_be.Error.{integrity_error}
use blog_be.Exec.{Result, ok, err, bind, Exec}
use blog_be.Database.{
  Post, Blog, IsValid, post_key, has_post, update_post, rename_post, delete_post,
}
use blog_be.Database.Validity.{update_post-IsValid, delete_post-IsValid, rename_post-IsValid}
use blog_be.Post.Schemas.{PostUpdate, Field, unset, null, value, Entity}
use blog_be.Post.Repository.{get_by_id, exists}
use blog_be.Post.Service.{
  update_fields, update_tags, update_id, rename, delete_by_id, publish, require_post, touch,
  flushed, same_columns, set_columns, publish_on, day_of,
}
use blog_be.Post.Writes.Retag.{update_tags-IsRetagged}

-- A run that ends in a valid database, and not by a violated key (which would be a 500).
pub record IsSafe {A : Type 0} (x : Result A × Blog) : Type 0 where
  pub valid : IsValid x.1
  pub no_violation : x.0 ≢ err integrity_error

-- What the steps of `update` keep: the call returned a post that is there, in a valid database.
pub record IsHeld (x : Result Entity × Blog) (id : String) : Type 0 where
  pub entity : Entity
  pub result : x.0 ≡ ok entity
  pub valid : IsValid x.1
  pub there : has_post id x.1 ≡ true
  pub same_id : entity.row.id ≡ id

update_tags-IsHeld :
    (env : Platform) (field : Field (List String)) (e : Entity) (b : Blog)
    → IsValid b
    → lookup post_key e.row.id b.posts ≡ some e.row
    → IsHeld (update_tags env field e b) e.row.id
update_tags-IsHeld env field e b v stored =
    let (e', b', run, t) = update_tags-IsRetagged env field e b v stored in
    rw run (record {
      entity = e';
      result = refl;
      valid = t.valid;
      there = has_of_lookup post_key e.row.id b'.posts {r = e'.row} t.stored;
      same_id = t.id;
    })

rename_post_free :
    (old new : String) (b : Blog)
    → has_post new b ≡ false
    → rename_post old new b ≡ (ok tt, (rename_post old new b).1)
unfolding rename_post
rename_post_free old new b free = rw free

rename-IsSafe :
    (env : Platform) (new_id : String) (e : Entity) (b : Blog)
    → IsValid b
    → IsSafe (rename env new_id e b)
unfolding rename exists update_post
rename-IsSafe env new_id e b v = elim (Bool-cases (has_post new_id b)) [
  | inl taken ↦ rw taken (record { valid = v; no_violation = ground arith })
  | inr free ↦
      rw (free, rename_post_free e.row.id new_id b free)
        (record {
          valid =
              unfold update_post in
              update_post-IsValid _ (rename_post-IsValid b v e.row.id new_id) new_id
                (touch env.db_now) (λ p. refl);
          no_violation = ground arith;
        })
]

update_id-IsSafe :
    (env : Platform) (field : Field String) (e : Entity) (b : Blog)
    → IsValid b
    → IsSafe (update_id env field e b)
unfolding update_id
update_id-IsSafe env unset e b v = record { valid = v; no_violation = ground arith }
update_id-IsSafe env null e b v = record { valid = v; no_violation = ground arith }
update_id-IsSafe env (value new_id) e b v = elim (Bool-cases (new_id == e.row.id)) [
  | inl same ↦ rw same (record { valid = v; no_violation = ground arith })
  | inr other ↦ rw other (rename-IsSafe env new_id e b v)
]

-- the rest of a run after a step that holds
then-IsSafe :
    {A : Type 0} (x : Result Entity × Blog) (id : String) (f : Entity → Exec Blog A)
    → IsHeld x id
    → ((e : Entity) (b : Blog) → IsValid b → IsSafe (f e b))
    → IsSafe (bind x f)
then-IsSafe (ok e, b) id f h k = k e b h.valid
then-IsSafe (err e, b) id f h k = absurd (let bad = h.result in cc)

pub id-flushed :
    (env : Platform) (change : Post → Post) (p : Post)
    → (change p).id ≡ p.id
    → (flushed env change p).id ≡ p.id
id-flushed env change p h = elim (Bool-cases (same_columns (change p) p)) [
  | inl same ↦ rw same refl
  | inr differ ↦ rw differ h
]

pub keeps_id :
    (env : Platform) (payload : PostUpdate) (p : Post)
    → (flushed env (set_columns payload) p).id ≡ p.id
keeps_id env payload p = id-flushed env (set_columns payload) p refl

-- the post that was found is there after its columns are written
pub lookup-flushed :
    (env : Platform) (payload : PostUpdate) (post_id : String) (posts : List Post) {p : Post}
    → lookup post_key post_id posts ≡ some p
    → let change = flushed env (set_columns payload) in
      lookup post_key (change p).id (update post_key post_id change posts) ≡ some (change p)
lookup-flushed env payload post_id posts {p = p} found =
    rw (keeps_id env payload p ∙ key-lookup post_key post_id posts {r = p} found) (
      lookup-update_self post_key post_id (flushed env (set_columns payload)) (keeps_id env payload)
        posts {r = p} found)

pub update_fields-IsSafe :
    (env : Platform) (post_id : String) (payload : PostUpdate) (b : Blog)
    → IsValid b
    → IsSafe (update_fields env post_id payload b)
unfolding update_fields require_post get_by_id
update_fields-IsSafe env post_id payload b v =
    elim (Option-cases (lookup post_key post_id b.posts)) [
      | inl gone ↦ rw gone (record { valid = v; no_violation = ground arith })
      | inr (p, e) ↦ rw e (
          unfold update_post in
          then-IsSafe _ (flushed env (set_columns payload) p).id (update_id env payload.id)
            (update_tags-IsHeld env payload.tags _ _
              (update_post-IsValid b v post_id (flushed env (set_columns payload))
                (keeps_id env payload))
              (lookup-flushed env payload post_id b.posts {p = p} e))
            (update_id-IsSafe env payload.id))
    ]

pub delete_by_id-IsSafe :
    (post_id : String) (env : Platform) (b : Blog) → IsValid b → IsSafe (delete_by_id env post_id b)
unfolding delete_by_id require_post get_by_id delete_post
delete_by_id-IsSafe post_id env b v = elim (Option-cases (lookup post_key post_id b.posts)) [
  | inl gone ↦ rw gone (record { valid = v; no_violation = ground arith })
  | inr (p, e) ↦ rw e (record {
    valid = unfold delete_post in delete_post-IsValid b v post_id;
    no_violation = ground arith;
  })
]

pub publish-IsSafe :
    (env : Platform) (post_id : String) (b : Blog) → IsValid b → IsSafe (publish env post_id b)
unfolding publish require_post get_by_id
publish-IsSafe env post_id b v = elim (Option-cases (lookup post_key post_id b.posts)) [
  | inl gone ↦ rw gone (record { valid = v; no_violation = ground arith })
  | inr (p, e) ↦ rw e (
      unfold update_post in
      record {
        valid =
            update_post-IsValid b v post_id (flushed env (publish_on (day_of env.app_now)))
              (λ q. id-flushed env (publish_on (day_of env.app_now)) q refl);
        no_violation = ground arith;
      })
]

-- ===== src/Post/Schemas.antt =====
-- app/post/application/schemas.py: requests, with the checks of their validators, and responses.
use blog_be.Prelude.{
  ℕ, String, Bool, true, false, not, ◌&&◌, Option, none, some, List, ◌==◌, string_eq, if◌then◌else◌,
}
use blog_be.Database.{Post, PostKind, PostStatus}

pub record PostCreate : Type 0 where
  pub id : Option String
  pub title : String
  pub excerpt : String
  pub content : Option String
  pub tags : List String
  pub date : ℕ
  pub read_time : String
  pub kind : PostKind
  pub featured : Bool
  pub status : PostStatus

-- A field of a PATCH body: not sent, sent as null, or sent with a value.
pub data Field (A : Type 0) : Type 0 where
  unset null : Field A
  value : A → Field A

-- The body of a PATCH as it was sent.
pub record PostUpdateBody : Type 0 where
  pub id : Field String
  pub title : Field String
  pub excerpt : Field String
  pub content : Field String
  pub tags : Field (List String)
  pub date : Field ℕ
  pub read_time : Field String
  pub kind : Field PostKind
  pub featured : Field Bool
  pub status : Field PostStatus

-- A validated `PostUpdate`. The columns that are NOT NULL are sent with a value or not at all.
pub record PostUpdate : Type 0 where
  pub id : Field String
  pub title : Option String
  pub excerpt : Option String
  pub content : Field String
  pub tags : Field (List String)
  pub date : Option ℕ
  pub read_time : Option String
  pub kind : Option PostKind
  pub featured : Option Bool
  pub status : Option PostStatus

-- `_reject_null` on one field: false if it raises
abbrev pub not_null : {A : Type 0} → Field A → Bool
not_null null = false
not_null _ = true

-- `min_length=1` on the id, which null and an id that is not sent pass
abbrev pub id_fits : Field String → Bool
id_fits (value id) = not (id == "")
id_fits _ = true

abbrev pub sent : {A : Type 0} → Field A → Option A
sent (value a) = some a
sent _ = none

unfoldable pub accepts : PostUpdateBody → Bool
accepts body =
    id_fits body.id
    && not_null body.title
    && not_null body.excerpt
    && not_null body.date
    && not_null body.read_time
    && not_null body.kind
    && not_null body.featured
    && not_null body.status

-- The parsing of a PATCH body into `PostUpdate`; `none` is a 422.
unfoldable pub validate_update : PostUpdateBody → Option PostUpdate
unfolding accepts
validate_update body =
    if accepts body
    then some (record {
      id = body.id;
      title = sent body.title;
      excerpt = sent body.excerpt;
      content = body.content;
      tags = body.tags;
      date = sent body.date;
      read_time = sent body.read_time;
      kind = sent body.kind;
      featured = sent body.featured;
      status = sent body.status;
    })
    else none

-- A post as the session holds it: its columns and the names of its `tags` relationship.
pub record Entity : Type 0 where
  pub row : Post
  pub tags : List String

pub record PostPublic : Type 0 where
  pub id : String
  pub title : String
  pub excerpt : String
  pub tags : List String
  pub date : ℕ
  pub read_time : String
  pub kind : PostKind
  pub featured : Bool

pub record PostDetail : Type 0 where
  pub summary : PostPublic
  pub content : Option String

pub record PostAdmin : Type 0 where
  pub detail : PostDetail
  pub status : PostStatus
  pub views : ℕ
  pub created_at : ℕ
  pub updated_at : ℕ

pub record PostNavItem : Type 0 where
  pub id : String
  pub title : String
  pub excerpt : String
  pub date : ℕ
  pub tags : List String

pub record PostNavResponse : Type 0 where
  pub prev : Option PostNavItem
  pub next : Option PostNavItem

-- `PostPublic.model_validate`
unfoldable pub to_public : Entity → PostPublic
to_public p = record {
  id = p.row.id;
  title = p.row.title;
  excerpt = p.row.excerpt;
  tags = p.tags;
  date = p.row.date;
  read_time = p.row.read_time;
  kind = p.row.kind;
  featured = p.row.featured;
}

-- `PostDetail.model_validate`
unfoldable pub to_detail : Entity → PostDetail
unfolding to_public
to_detail p = record { summary = to_public p; content = p.row.content }

-- `PostAdmin.model_validate`
unfoldable pub to_admin : Entity → PostAdmin
unfolding to_detail
to_admin p = record {
  detail = to_detail p;
  status = p.row.status;
  views = p.row.views;
  created_at = p.row.created_at;
  updated_at = p.row.updated_at;
}

-- `PostNavItem.model_validate`
unfoldable pub to_nav_item : Entity → PostNavItem
to_nav_item p = record {
  id = p.row.id;
  title = p.row.title;
  excerpt = p.row.excerpt;
  date = p.row.date;
  tags = p.tags;
}

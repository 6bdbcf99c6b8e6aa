-- ===== src/Post/Site.antt =====
-- The posts as a client of the write routes sees them: under each id the columns that a request can
-- set and the tags, as a set. Rows, association rows, their order and the time of the last change are
-- forgotten.
pub mod View
pub mod Conflict
pub mod Steps
pub mod Refines
use blog_be.Prelude.{
  ℕ, String, Bool, true, false, not, ◌&&◌, Option, none, some, List, [], ◌∷◌, map, ◌==◌, string_eq,
  if◌then◌else◌,
}
use blog_be.Platform.{Platform, slugify, normalize_tag}
use blog_be.Error.{Error, slug_conflict, post_not_found}
use blog_be.Exec.{Result, ok, err}
use blog_be.Database.{PostKind, PostStatus, published}
use blog_be.Tag.{contains}
use blog_be.Post.Schemas.{PostCreate, PostUpdate}
use blog_be.Post.Service.{or_slug, get_or, content_or, day_of}
use blog_be.Post.Writes.Rename.{new_id_of}
use blog_be.Post.Writes.Retag.{tag_after}
use blog_be.Post.Writes.Requests.{Write, create_post, patch_post, delete_post, publish_post}

pub record Article : Type 0 where
  pub title : String
  pub excerpt : String
  pub content : Option String
  pub date : ℕ
  pub read_time : String
  pub kind : PostKind
  pub status : PostStatus
  pub featured : Bool
  pub views : ℕ
  pub created_at : ℕ
  pub tags : String → Bool

abbrev pub Site : Type 0
Site = String → Option Article

abbrev pub put_article : String → Option Article → Site → Site
put_article id article s j = if j == id then article else s j

abbrev pub is_some : Option Article → Bool
is_some none = false
is_some (some article) = true

module _ (env : Platform) where
  abbrev pub new_article : PostCreate → Article
  new_article payload = record {
    title = payload.title;
    excerpt = payload.excerpt;
    content = payload.content;
    date = payload.date;
    read_time = payload.read_time;
    kind = payload.kind;
    status = payload.status;
    featured = payload.featured;
    views = 0;
    created_at = env.db_now;
    tags = λ name. contains (map (normalize_tag env) payload.tags) name;
  }

  abbrev pub edited : PostUpdate → Article → Article
  edited payload a = record {
    title = get_or payload.title a.title;
    excerpt = get_or payload.excerpt a.excerpt;
    content = content_or payload.content a.content;
    date = get_or payload.date a.date;
    read_time = get_or payload.read_time a.read_time;
    kind = get_or payload.kind a.kind;
    status = get_or payload.status a.status;
    featured = get_or payload.featured a.featured;
    views = a.views;
    created_at = a.created_at;
    tags = λ name. tag_after env payload.tags name (a.tags name);
  }

  abbrev pub released : Article → Article
  released a = record a { status = published; date = day_of env.app_now }

  abbrev pub Outcome : Type 0
  Outcome = Result (Unit {0}) × Site

  -- on the article that is there, if it is
  abbrev pub on_article : String → Site → Option Article → (Article → Outcome) → Outcome
  on_article id s none f = (err (post_not_found id), s)
  on_article id s (some a) f = f a

  -- What each request does, on a site.
  abbrev pub step : Write → Site → Outcome
  step (create_post payload) s =
      let slug = or_slug payload.id (slugify env payload.title) in
      if is_some (s slug)
      then (err (slug_conflict slug), s)
      else (ok tt, put_article slug (some (new_article payload)) s)
  step (patch_post id payload) s =
      let new_id = new_id_of payload.id id in
      on_article id s (s id) (λ a.
        if not (new_id == id) && is_some (s new_id)
        then (err (slug_conflict new_id), s)
        else (ok tt, put_article new_id (some (edited payload a)) (put_article id none s)))
  step (delete_post id) s = on_article id s (s id) (λ a. (ok tt, put_article id none s))
  step (publish_post id) s =
      on_article id s (s id) (λ a. (ok tt, put_article id (some (released a)) s))

-- the requests one after the other
abbrev pub replay : List (Platform × Write) → Site → Site
replay [] s = s
replay ((env, w) ∷ rest) s = replay rest (step env w s).1

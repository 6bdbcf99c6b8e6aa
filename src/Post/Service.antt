-- ===== src/Post/Service.antt =====
-- app/post/application/service.py: `PostService`. The bodies of the writing methods stand here;
-- Post/Writes/Requests runs each inside its transaction.
use blog_be.Prelude.{
  ℕ, ◌/◌, String, Bool, ◌&&◌, Option, none, some, List, map, ◌==◌, nat_eq, string_eq, bool_eq,
  option_eq, if◌then◌else◌, filter,
}
use blog_be.Prelude.Sort.{sort}
use blog_be.Platform.{Platform, slugify, normalize_tag}
use blog_be.Error.{post_not_found, slug_conflict}
use blog_be.Exec.{Exec, pure, gets, or_raise, raise_if, ◌>>=◌, ◌>>◌}
use blog_be.Database.{
  PostKind, PostStatus, Post, Tag, Blog, published, kind_eq, status_eq, insert_post, assign_tags,
  update_post, rename_post, delete_post, set_id,
}
use blog_be.Tag.{ensure}
use blog_be.Post.Schemas.{PostCreate, PostUpdate, Field, unset, null, value, Entity}
use blog_be.Post.Repository.{
  list_all as repository_list_all, list_published as repository_list_published,
  search_posts as repository_search, get_by_id, get_published, exists, get_nav,
}

-- `payload.id or slugify(payload.title)`: an empty id is as none
abbrev pub or_slug : Option String → String → String
or_slug none slug = slug
or_slug (some id) slug = if id == "" then slug else id

abbrev pub get_or {ℓ} : {A : Type ℓ} → Option A → A → A
get_or none a = a
get_or (some b) a = b

abbrev pub content_or : Field String → Option String → Option String
content_or unset old = old
content_or null old = none
content_or (value text) old = some text

abbrev pub same_columns : Post → Post → Bool
same_columns p q =
    p.title == q.title
    && p.excerpt == q.excerpt
    && p.content == q.content
    && p.date == q.date
    && p.read_time == q.read_time
    && p.kind == q.kind
    && p.featured == q.featured
    && p.status == q.status

abbrev pub touch : ℕ → Post → Post
touch now p = record p { updated_at = now }

-- The `setattr` loop over the fields that were sent, other than `id` and `tags`.
abbrev pub set_columns : PostUpdate → Post → Post
set_columns payload p = record p {
  title = get_or payload.title p.title;
  excerpt = get_or payload.excerpt p.excerpt;
  content = content_or payload.content p.content;
  date = get_or payload.date p.date;
  read_time = get_or payload.read_time p.read_time;
  kind = get_or payload.kind p.kind;
  featured = get_or payload.featured p.featured;
  status = get_or payload.status p.status;
}

abbrev pub publish_on : ℕ → Post → Post
publish_on today p = record p { status = published; date = today }

-- seconds to a day, the date of a time in UTC
abbrev pub day_of : ℕ → ℕ
day_of now = now / 86400

module _ (env : Platform) where
  -- The flush of changed attributes: no UPDATE if none differs, and `onupdate` if one does.
  abbrev pub flushed : (Post → Post) → Post → Post
  flushed change p = if same_columns (change p) p then p else touch env.db_now (change p)

  -- a loaded post with its `tags` relationship, ordered by name
  abbrev pub load : Post → Blog → Entity
  load p b = record {
    row = p;
    tags = sort env.text_le (map (λ l. l.tag_name) (filter (λ l. l.post_id == p.id) b.post_tags));
  }

  -- The methods that ask the repository and no more.
  abbrev pub list_all :
      ℕ → ℕ → Option String → Option PostKind → Option PostStatus → Blog → List Post × ℕ
  list_all page page_size tag kind status b =
      repository_list_all env page page_size tag kind status b

  abbrev pub list_published : ℕ → ℕ → Option String → Option PostKind → Blog → List Post × ℕ
  list_published page page_size tag kind b = repository_list_published env page page_size tag kind b

  -- `search`
  abbrev pub search_posts : (List ℕ → String → Bool) → List ℕ → ℕ → ℕ → Blog → List Post × ℕ
  search_posts ilike q page page_size b = repository_search env ilike q page page_size b

  -- `get_by_id` of the service
  unfoldable pub require_post : String → Exec Blog Post
  require_post post_id b = or_raise (get_by_id post_id b) (post_not_found post_id) b

  -- `get_published` of the service
  unfoldable pub require_published : String → Exec Blog Post
  require_published post_id b = or_raise (get_published post_id b) (post_not_found post_id) b

  -- `get_nav` of the service
  unfoldable pub require_nav : String → Exec Blog (Option Post × Option Post)
  require_nav post_id = do post ← require_published post_id; gets (get_nav env post)

  abbrev pub new_post : String → PostCreate → Post
  new_post slug payload = record {
    id = slug;
    title = payload.title;
    excerpt = payload.excerpt;
    content = payload.content;
    date = payload.date;
    read_time = payload.read_time;
    kind = payload.kind;
    status = payload.status;
    featured = payload.featured;
    views = 0;
    created_at = env.db_now;
    updated_at = env.db_now;
  }

  abbrev pub tag_names : List Tag → List String
  tag_names tags = map (λ t. t.name) tags

  -- `create`
  unfoldable pub create : PostCreate → Exec Blog Entity
  create payload = do
    let slug = or_slug payload.id (slugify env payload.title)
    taken ← gets (exists slug)
    raise_if taken (slug_conflict slug)
    tags ← ensure env (map (normalize_tag env) payload.tags)
    insert_post (new_post slug payload)
    assign_tags slug (tag_names tags)
    pure (record { row = new_post slug payload; tags = tag_names tags })

  -- `if tags_update is not None: …`
  unfoldable pub update_tags : Field (List String) → Entity → Exec Blog Entity
  update_tags (value names) e = do
    tags ← ensure env (map (normalize_tag env) names)
    assign_tags e.row.id (tag_names tags)
    update_post e.row.id (touch env.app_now)
    pure (record { row = touch env.app_now e.row; tags = tag_names tags })
  update_tags unset e = pure e
  update_tags null e = pure e

  -- the rename of a post that is not renamed to its own id, and its flush
  unfoldable pub rename : String → Entity → Exec Blog Entity
  rename new_id e = do
    taken ← gets (exists new_id)
    raise_if taken (slug_conflict new_id)
    rename_post e.row.id new_id
    update_post new_id (touch env.db_now)
    pure (record { row = touch env.db_now (set_id new_id e.row); tags = e.tags })

  -- `if new_id is not None and new_id != post_id: …`
  unfoldable pub update_id : Field String → Entity → Exec Blog Entity
  update_id (value new_id) e = if new_id == e.row.id then pure e else rename new_id e
  update_id unset e = pure e
  update_id null e = pure e

  -- `update`
  unfoldable pub update_fields : String → PostUpdate → Exec Blog Entity
  update_fields post_id payload = do
    post ← require_post post_id
    loaded ← gets (load post)
    update_post post_id (flushed (set_columns payload))
    tagged ← update_tags payload.tags (record loaded { row = flushed (set_columns payload) post })
    update_id payload.id tagged

  -- `delete`
  unfoldable pub delete_by_id : String → Exec Blog (Unit {0})
  delete_by_id post_id = do require_post post_id; delete_post post_id

  -- `publish`
  unfoldable pub publish : String → Exec Blog Entity
  publish post_id = do
    post ← require_post post_id
    loaded ← gets (load post)
    let change = flushed (publish_on (day_of env.app_now))
    update_post post_id change
    pure (record loaded { row = change post })

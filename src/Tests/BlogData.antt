-- ===== src/Tests/BlogData.antt =====
-- A small database, and the platform of the tests.
use blog_be.Prelude.{ℕ, String, refl, none, some, false, true, [], ◌∷◌, string_eq}
use blog_be.Platform.{Platform}
use blog_be.Database.{Post, Blog, IsValid, essay, note, PostStatus, published, draft}
use blog_be.Post.Schemas.{PostCreate, PostUpdate, unset, value}
use blog_be.Tests.Collation.{text_le}

-- `slugify` keeps its text, which is a slug already
abbrev pub env : Platform
env = record { slugify_package = λ s. s; text_le = text_le; app_now = 1000000; db_now = 1000001 }

abbrev pub post_on : String → ℕ → PostStatus → Post
post_on id date status = record {
  id = id;
  title = id;
  excerpt = "";
  content = none;
  date = date;
  read_time = "1 min";
  kind = essay;
  status = status;
  featured = false;
  views = 0;
  created_at = 1;
  updated_at = date;
}

abbrev pub first_post : Post
first_post = post_on "first" 10 published

abbrev pub second_post : Post
second_post = post_on "second" 10 published

abbrev pub blog : Blog
blog = record {
  posts = first_post ∷ second_post ∷ post_on "third" 12 draft ∷ [];
  tags = record { name = "python"; created_at = 1 } ∷ [];
  post_tags = record { post_id = "first"; tag_name = "python" } ∷ [];
}

pub blog-IsValid : IsValid blog
blog-IsValid = record {
  posts_unique = (refl, (refl, (refl, tt)));
  tags_unique = (refl, tt);
  links_unique = (refl, tt);
  links_posts = (refl, tt);
  links_tags = (refl, tt);
}

abbrev pub new_post_payload : PostCreate
new_post_payload = record {
  id = none;
  title = "fourth";
  excerpt = "";
  content = none;
  tags = "go" ∷ "python" ∷ "go" ∷ [];
  date = 13;
  read_time = "2 min";
  kind = note;
  featured = true;
  status = draft;
}

abbrev pub rename_payload : PostUpdate
rename_payload = record {
  id = value "renamed";
  title = some "Renamed";
  excerpt = none;
  content = unset;
  tags = unset;
  date = none;
  read_time = none;
  kind = none;
  featured = none;
  status = none;
}

abbrev pub retag_payload : PostUpdate
retag_payload = record rename_payload { tags = value ("go" ∷ []) }

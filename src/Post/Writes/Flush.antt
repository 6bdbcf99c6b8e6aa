-- ===== src/Post/Writes/Flush.antt =====
-- The flush of changed columns: what it leaves of a row but for its id and its time.
use blog_be.Prelude.{
  ◌≡◌, refl, sym, true, nat_eq, bool_eq, option_eq, string_eq, arith, inl, inr, Bool-cases,
}
use blog_be.Platform.{Platform}
use blog_be.Database.{Post, kind_eq, status_eq}
use blog_be.Post.Service.{flushed, same_columns}

-- a row but for its id and its time
abbrev pub timeless : Post → Post
timeless p = record p { id = ""; updated_at = 0 }

-- rows that agree on the columns of a PATCH, and on those that only the database sets
pub same_columns-timeless :
    (q p : Post)
    → q.views ≡ p.views
    → q.created_at ≡ p.created_at
    → same_columns q p ≡ true
    → timeless p ≡ timeless q
same_columns-timeless q p views created same =
    let title = (string_eq.beq_iff q.title p.title).0 (ground arith) in
    let excerpt = (string_eq.beq_iff q.excerpt p.excerpt).0 (ground arith) in
    let content = (option_eq.beq_iff q.content p.content).0 (ground arith) in
    let date = (nat_eq.beq_iff q.date p.date).0 (ground arith) in
    let read_time = (string_eq.beq_iff q.read_time p.read_time).0 (ground arith) in
    let kind = (kind_eq.beq_iff q.kind p.kind).0 (ground arith) in
    let status = (status_eq.beq_iff q.status p.status).0 (ground arith) in
    let featured = (bool_eq.beq_iff q.featured p.featured).0 (ground arith) in
    sym (λ i. record {
      id = "";
      title = title i;
      excerpt = excerpt i;
      content = content i;
      date = date i;
      read_time = read_time i;
      kind = kind i;
      status = status i;
      featured = featured i;
      views = views i;
      created_at = created i;
      updated_at = 0;
    })

-- the flush skips an UPDATE only if it would change no column
pub timeless-flushed :
    (env : Platform) (change : Post → Post) (p : Post)
    → (change p).views ≡ p.views
    → (change p).created_at ≡ p.created_at
    → timeless (flushed env change p) ≡ timeless (change p)
timeless-flushed env change p views created = elim (Bool-cases (same_columns (change p) p)) [
  | inl same ↦ rw same (same_columns-timeless (change p) p views created same)
  | inr differs ↦ rw differs refl
]

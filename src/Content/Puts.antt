-- ===== src/Content/Puts.antt =====
-- The routes of api/v1/content.py on the stored rows.
use blog_be.Prelude.{
  ℕ, ◌≤◌, ◌<◌, String, ◌≡◌, ◌≢◌, refl, ◌∙◌, true, false, none, some, List, Bool-cases, Option-cases,
  inl, inr, arith, ltb, length, ◌⊎◌, lt→ltb,
}
use blog_be.Error.{validation_error}
use blog_be.Exec.{ok, err}
use blog_be.Session.{sqlalchemy_middleware, execute}
use blog_be.Session.Laws.{settled, request-transactional}
use blog_be.Server.Http.{codes}
use blog_be.Content.{
  Json, SiteContent, max_content_bytes, is_key, validate_key, to_read, find_content, write_row,
  read_content, get_content, execute_upsert, upsert_row, check_content, upsert, put_content,
  invalid_key,
}
use blog_be.Content.Laws.{key_fits, find-write_row_self, find-write_row_ne}

module _ {C : Type 0} where
  -- what a GET answers, for a key that passes the check
  get_content_lem :
      (key : String) (rows : List (SiteContent C)) {row : SiteContent C}
      → is_key (codes key) ≡ true
      → find_content key rows ≡ some row
      → get_content key rows ≡ (ok (to_read row), rows)
  unfolding get_content validate_key read_content sqlalchemy_middleware execute
  get_content_lem key rows k e = rw k (rw e refl)

  -- the answer depends on the row of the key only
  get_content-same :
      (key : String) (rows rows' : List (SiteContent C))
      → find_content key rows' ≡ find_content key rows
      → (get_content key rows').0 ≡ (get_content key rows).0
  unfolding get_content validate_key read_content sqlalchemy_middleware execute
  get_content-same key rows rows' e = elim (Bool-cases (is_key (codes key))) [
    | inl k ↦ elim (Option-cases (find_content key rows)) [
      | inl absent ↦ rw (k, e, absent) refl
      | inr (row, found) ↦ rw (k, e, found) refl
    ]
    | inr bad ↦ rw bad refl
  ]

module _ {C : Type 0} (json : Json C) (now : ℕ) (key : String) (content : C) where
  -- a key that matches and a document that serializes to at most 64 KB and that the column takes
  pub record IsAccepted (stored : C) : Type 0 where
    pub key_matches : is_key (codes key) ≡ true
    pub text : String
    pub dumped : json.dumps content ≡ some text
    pub bytes : List ℕ
    pub encoded : json.encode text ≡ some bytes
    pub small : length bytes ≤ max_content_bytes
    pub taken : json.jsonb content ≡ some stored

  pub put_content_lem :
      (rows : List (SiteContent C))
      → is_key (codes key) ≡ true
      → put_content json now key content rows ≡ settled rows (upsert json now key content rows)
  unfolding put_content validate_key sqlalchemy_middleware
  put_content_lem rows k = rw k (request-transactional (upsert json now key content) rows)

  check_accepted :
      (rows : List (SiteContent C)) {stored : C}
      → IsAccepted stored
      → check_content json content rows ≡ (ok tt, rows)
  unfolding check_content
  check_accepted rows a =
      let test : ltb max_content_bytes (length a.bytes) ≡ false = ground (arith, a.small) in
      rw (a.dumped, a.encoded, test) refl

  upsert_row_lem :
      (rows : List (SiteContent C)) {stored : C}
      → is_key (codes key) ≡ true
      → json.jsonb content ≡ some stored
      → upsert_row json now key content rows ≡ (
        ok (record { key = key; content = stored; updated_at = now }),
        write_row now key stored rows,
      )
  unfolding upsert_row execute_upsert
  upsert_row_lem rows {stored} k e =
      rw (key_fits (codes key) k, e, find-write_row_self now key stored rows) refl

  upsert_lem :
      (rows : List (SiteContent C)) {stored : C}
      → IsAccepted stored
      → upsert json now key content rows ≡ (
        ok (record { key = key; content = stored; updated_at = now }),
        write_row now key stored rows,
      )
  unfolding upsert
  upsert_lem rows {stored} a =
      rw (check_accepted rows {stored = stored} a)
        (rw (upsert_row_lem rows {stored = stored} a.key_matches a.taken) refl)

  -- A PUT that passes the checks stores the document: its answer is the answer of a GET of the key
  -- afterwards, and a GET of any other key answers as before.
  pub put_stores :
      (rows : List (SiteContent C)) (other : String) {stored : C}
      → IsAccepted stored
      → other ≢ key
      → let after = (put_content json now key content rows).1 in
        ((put_content json now key content rows).0
          ≡ ok (record { key = key; content = stored; updated_at = now }))
        × (get_content key after ≡ ((put_content json now key content rows).0, after))
        × ((get_content other after).0 ≡ (get_content other rows).0)
  put_stores rows other {stored} a ne = rw (put_content_lem rows a.key_matches) (
      rw (upsert_lem rows {stored = stored} a) (
        refl,
        get_content_lem key (write_row now key stored rows) a.key_matches
            (find-write_row_self now key stored rows),
        get_content-same other rows (write_row now key stored rows)
            (find-write_row_ne now key other stored rows ne),
      ))

  -- what the checks refuse: the key, a NaN or Infinity in the document, or more than 64 KB of it
  abbrev pub IsRefused : Type 0
  IsRefused =
      (is_key (codes key) ≡ false)
      ⊎ ((json.dumps content ≡ none)
          ⊎ ((text : String) × (bytes : List ℕ) × (json.dumps content ≡ some text)
              × (json.encode text ≡ some bytes)
              × (max_content_bytes < length bytes)))

  pub put_invalid :
      (rows : List (SiteContent C))
      → is_key (codes key) ≡ false
      → put_content json now key content rows ≡ (err (invalid_key key), rows)
  unfolding put_content validate_key sqlalchemy_middleware
  put_invalid rows bad = rw bad refl

  -- an error of the checks is the answer, unless the key is refused before
  put_unchecked :
      (rows : List (SiteContent C)) (message : String)
      → check_content json content rows ≡ (err (validation_error message), rows)
      → (m : String) × (put_content json now key content rows ≡ (err (validation_error m), rows))
  unfolding upsert
  put_unchecked rows message e = elim (Bool-cases (is_key (codes key))) [
    | inl k ↦ (message, put_content_lem rows k ∙ rw e refl)
    | inr bad ↦ (_, put_invalid rows bad)
  ]

  nan_refused :
      (rows : List (SiteContent C))
      → json.dumps content ≡ none
      → check_content json content rows
        ≡ (err (validation_error "content must not contain NaN or Infinity"), rows)
  unfolding check_content
  nan_refused rows e = rw e refl

  large_refused :
      (rows : List (SiteContent C)) (text : String) (bytes : List ℕ)
      → json.dumps content ≡ some text
      → json.encode text ≡ some bytes
      → max_content_bytes < length bytes
      → check_content json content rows
        ≡ (err (validation_error "content exceeds 64 KB limit"), rows)
  unfolding check_content
  large_refused rows text bytes e k large =
      let test : ltb max_content_bytes (length bytes) ≡ true = lt→ltb _ _ large in
      rw (e, k, test) refl

  -- A PUT that a check refuses is answered by 422 and changes nothing.
  pub put_refuses :
      (rows : List (SiteContent C))
      → IsRefused
      → (message : String) × (put_content json now key content rows
          ≡ (err (validation_error message), rows))
  put_refuses rows (inl bad) = (_, put_invalid rows bad)
  put_refuses rows (inr (inl nan)) = put_unchecked rows _ (nan_refused rows nan)
  put_refuses rows (inr (inr (text, bytes, e, k, large))) =
      put_unchecked rows _ (large_refused rows text bytes e k large)

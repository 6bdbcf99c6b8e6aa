-- ===== src/App/LoginPath.antt =====
-- Which endpoint the login limit counts: its path and method are tested as those of a login.
use Prim.Native.Char.{code}
use Prim.Native.String.{String, ◌++◌ as str_append}
use Prim.Native.String.append.{nil, cons}
use blog_be.Prelude.{
  ℕ, ◌≡◌, ◌≢◌, refl, ◌∙◌, sym, ap, Bool, true, false, ◌&&◌, List, [], ◌∷◌, ◌==◌, nat_eq, string_eq,
  arith, inl, inr, Bool-cases,
}
use blog_be.Server.Http.{codes, same_codes, ends_with}
use blog_be.App.Endpoints.{
  Endpoint, posts_get, post_get, nav_get, tag_get, content_get, search_get, tags_get, jwks_get,
  healthz_get, admin_posts_get, admin_post_get, post_create, post_patch, post_delete, post_publish,
  content_put, login_post, refresh_post, logout_post, path_of, method_of,
}

-- the last code point, or 0
abbrev last_of : ℕ → List ℕ → ℕ
last_of d [] = d
last_of d (c ∷ cs) = last_of c cs

same_codes-last_of :
    (d : ℕ) (xs ys : List ℕ) → same_codes xs ys ≡ true → last_of d xs ≡ last_of d ys
same_codes-last_of d [] [] h = refl
same_codes-last_of d [] (y ∷ ys) h = absurd (cc)
same_codes-last_of d (x ∷ xs) [] h = absurd (cc)
same_codes-last_of d (x ∷ xs) (y ∷ ys) h =
    let heads : x ≡ y = ground (arith, h) in
    let tails : same_codes xs ys ≡ true = ground (arith, h) in
    rw heads (same_codes-last_of y xs ys tails)

-- a text has the last character of a suffix of it
ends_with-last_of :
    (d e c : ℕ) (xs suffix : List ℕ)
    → ends_with xs (c ∷ suffix) ≡ true
    → last_of d xs ≡ last_of e (c ∷ suffix)
ends_with-last_of d e c [] suffix h = absurd (cc)
ends_with-last_of d e c (x ∷ xs) suffix h = elim (Bool-cases (same_codes (x ∷ xs) (c ∷ suffix))) [
  | inl same ↦ same_codes-last_of d (x ∷ xs) (c ∷ suffix) same
  | inr other ↦ ends_with-last_of x e c xs suffix (rw other at h)
]

last_of-append :
    (d : ℕ) (s t : String)
    → last_of d (codes (str_append s t)) ≡ last_of (last_of d (codes s)) (codes t)
last_of-append d String.[] t = ap (λ u. last_of d (codes u)) (λ i. nil t i)
last_of-append d (String.◌∷◌ b s) t =
    ap (λ u. last_of d (codes u)) (λ i. cons b s t i) ∙ last_of-append (code b) s t

-- a path that ends in another character is not that of a login
not_login :
    (path : String)
    → last_of 0 (codes path) ≢ b'n'
    → ends_with (codes path) (codes "/auth/login") ≡ false
not_login path differs = elim (Bool-cases (ends_with (codes path) (codes "/auth/login"))) [
  | inl same ↦ absurd (differs (ends_with-last_of 0 0 b'/' (codes path) (codes "auth/login") same))
  | inr other ↦ other
]

publish_path :
    (post_id : String)
    → ends_with
        (codes (str_append "/v1/posts/" (str_append post_id "/publish")))
        (codes "/auth/login")
      ≡ false
publish_path post_id = not_login (str_append "/v1/posts/" (str_append post_id "/publish")) (λ e.
    let ends_in_h : b'h' ≡ b'n' =
      sym (
        last_of-append 0 "/v1/posts/" (str_append post_id "/publish")
        ∙ last_of-append b'/' post_id "/publish")
      ∙ e in
    omega (arith, ends_in_h))

abbrev pub is_login_endpoint : {C : Type 0} → Endpoint C → Bool
is_login_endpoint (login_post username password) = true
is_login_endpoint _ = false

and_false : (b : Bool) → (b && false) ≡ false
and_false true = refl
and_false false = refl

module _ {C : Type 0} where
  abbrev pub limited : Endpoint C → Bool
  limited endpoint =
      ends_with (codes (path_of endpoint)) (codes "/auth/login") && method_of endpoint == "POST"

  -- the limit counts the requests to the endpoint of login, and no other
  pub is_login-endpoint : (endpoint : Endpoint C) → limited endpoint ≡ is_login_endpoint endpoint
  is_login-endpoint (login_post username password) = refl
  is_login-endpoint (post_publish post_id) = rw (publish_path post_id) refl
  is_login-endpoint (post_create payload) = refl
  is_login-endpoint (refresh_post token) = refl
  is_login-endpoint logout_post = refl
  is_login-endpoint (posts_get page page_size tag kind) = refl
  is_login-endpoint (post_get post_id) = and_false _
  is_login-endpoint (nav_get post_id) = and_false _
  is_login-endpoint (tag_get name) = and_false _
  is_login-endpoint (content_get key) = and_false _
  is_login-endpoint (search_get q page page_size) = refl
  is_login-endpoint tags_get = refl
  is_login-endpoint jwks_get = refl
  is_login-endpoint healthz_get = refl
  is_login-endpoint (admin_posts_get page page_size tag kind status) = refl
  is_login-endpoint (admin_post_get post_id) = and_false _
  is_login-endpoint (post_patch post_id payload) = and_false _
  is_login-endpoint (post_delete post_id) = and_false _
  is_login-endpoint (content_put key content) = and_false _

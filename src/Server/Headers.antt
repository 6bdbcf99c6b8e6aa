-- ===== src/Server/Headers.antt =====
-- `SecurityHeadersMiddleware` of app/server.py.
use blog_be.Prelude.{
  String, ◌≡◌, refl, ◌∙◌, ap, Bool, false, Option, none, some, List, [], ◌∷◌, any, ◌==◌, string_eq,
  arith,
}
use blog_be.Server.Http.{lower_text}

-- starlette's `MutableHeaders`
pub record HeaderLibrary (H : Type 0) : Type 0 where
  pub get : String → H → Option String
  pub setdefault : String → String → H → H

-- the names of headers are compared without their case
abbrev pub same_header : String → String → Bool
same_header a b = lower_text a == lower_text b

abbrev pub or_default : Option String → String → String
or_default none default = default
or_default (some own) default = own

-- what is documented of `setdefault`: it sets a header that is not there, and no other
pub record IsHeaderLibrary {H : Type 0} (lib : HeaderLibrary H) : Type 0 where
  pub default_set :
      (name value : String) (h : H)
      → lib.get name (lib.setdefault name value h) ≡ some (or_default (lib.get name h) value)
  pub others_kept :
      (name other value : String) (h : H)
      → same_header other name ≡ false
      → lib.get other (lib.setdefault name value h) ≡ lib.get other h

module _ {H : Type 0} (lib : HeaderLibrary H) where
  -- the headers of a response after `dispatch`
  unfoldable pub set_security_headers : H → H
  set_security_headers h = lib.setdefault "Referrer-Policy" "strict-origin-when-cross-origin" (
      lib.setdefault "X-Frame-Options" "DENY" (lib.setdefault "X-Content-Type-Options" "nosniff" h))

  abbrev security_names : List String
  security_names = "X-Content-Type-Options" ∷ "X-Frame-Options" ∷ "Referrer-Policy" ∷ []

  -- A response keeps each of the three headers that its route set and gets the default for the others,
  -- and no other header changes.
  pub set_security_headers_lem :
      (documented : IsHeaderLibrary lib) (h : H) (other : String)
      → any (same_header other) security_names ≡ false
      → (lib.get "X-Content-Type-Options" (set_security_headers h)
          ≡ some (or_default (lib.get "X-Content-Type-Options" h) "nosniff"))
        × (lib.get "X-Frame-Options" (set_security_headers h)
            ≡ some (or_default (lib.get "X-Frame-Options" h) "DENY"))
        × (lib.get "Referrer-Policy" (set_security_headers h)
            ≡ some (or_default (lib.get "Referrer-Policy" h) "strict-origin-when-cross-origin"))
        × (lib.get other (set_security_headers h) ≡ lib.get other h)
  unfolding set_security_headers
  set_security_headers_lem documented h other differs =
      let first = lib.setdefault "X-Content-Type-Options" "nosniff" h in
      let second = lib.setdefault "X-Frame-Options" "DENY" first in
      let keeps = documented.others_kept in
      (
        keeps "Referrer-Policy" "X-Content-Type-Options" _ second refl
            ∙ keeps "X-Frame-Options" "X-Content-Type-Options" _ first refl
            ∙ documented.default_set "X-Content-Type-Options" "nosniff" h,
        keeps "Referrer-Policy" "X-Frame-Options" _ second refl
            ∙ documented.default_set "X-Frame-Options" "DENY" first
            ∙ ap (λ own. some (or_default own "DENY"))
                (keeps "X-Content-Type-Options" "X-Frame-Options" "nosniff" h refl),
        documented.default_set "Referrer-Policy" "strict-origin-when-cross-origin" second
            ∙ ap (λ own. some (or_default own "strict-origin-when-cross-origin"))
                (keeps "X-Frame-Options" "Referrer-Policy" "DENY" first refl
                  ∙ keeps "X-Content-Type-Options" "Referrer-Policy" "nosniff" h refl),
        keeps "Referrer-Policy" other _ second (ground (arith, differs))
            ∙ keeps "X-Frame-Options" other _ first (ground (arith, differs))
            ∙ keeps "X-Content-Type-Options" other "nosniff" h (ground (arith, differs)),
      )

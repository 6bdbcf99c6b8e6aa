-- ===== src/Server/Http.antt =====
-- The parts of a request and a response that the middleware of app/server.py reads and writes.
use Prim.Native.Char.{Char, code}
use Prim.Native.String.{String}
use blog_be.Prelude.{
  ℕ, Bool, true, false, ◌||◌, Option, none, some, List, [], ◌∷◌, ◌==◌, nat_eq, ◌&&◌, if◌then◌else◌,
}

pub record Request : Type 0 where
  pub path : String
  pub method : String
  -- `request.client.host`, if there is a client
  pub client_host : Option String
  -- `headers.get` of `X-Gateway-Auth`
  pub gateway_auth : Option String

-- the code points of a text
abbrev pub codes : String → List ℕ
codes String.[] = []
codes (String.◌∷◌ c s) = code c ∷ codes s

abbrev pub same_codes : List ℕ → List ℕ → Bool
same_codes [] [] = true
same_codes (x ∷ xs) (y ∷ ys) = x == y && same_codes xs ys
same_codes _ _ = false

-- `text.endswith(suffix)` on code points
abbrev pub ends_with : List ℕ → List ℕ → Bool
ends_with [] suffix = same_codes [] suffix
ends_with (x ∷ xs) suffix = same_codes (x ∷ xs) suffix || ends_with xs suffix

-- a body with the `Cache-Control` header of the response, if the route sets one
pub record Reply {ℓ} (A : Type ℓ) : Type ℓ where
  pub body : A
  pub cache_control : Option String

-- `_PUBLIC_CACHE` of the public routes
abbrev pub public_cache : String
public_cache = "public, max-age=60, stale-while-revalidate=300"

abbrev pub cached {ℓ} : {A : Type ℓ} → A → Reply A
cached body = record { body = body; cache_control = some public_cache }

abbrev pub uncached {ℓ} : {A : Type ℓ} → A → Reply A
uncached body = record { body = body; cache_control = none }

-- `str.lower` on the ASCII letters
abbrev lower_char : String → String → Char → Char
lower_char (String.◌∷◌ capital capitals) (String.◌∷◌ small smalls) c =
    let rest = lower_char capitals smalls c in if code c == code capital then small else rest
lower_char _ _ c = c

abbrev pub lower_text : String → String
lower_text String.[] = ""
lower_text (String.◌∷◌ c text) =
    String.◌∷◌ (lower_char "ABCDEFGHIJKLMNOPQRSTUVWXYZ" "abcdefghijklmnopqrstuvwxyz" c)
      (lower_text text)

-- ===== src/Server/RateLimit.antt =====
-- `LoginRateLimitMiddleware` of app/server.py. Times are ticks of the monotonic clock, and the dict
-- of attempts is a function that is [] where there is no key.
pub mod Laws
pub mod Recovery
use blog_be.Prelude.{
  ℕ, ◌-◌, String, Bool, true, false, ◌&&◌, Option, none, some, List, [], ◌∷◌, ◌++◌, ◌==◌, string_eq,
  if◌then◌else◌, ltb, leb, length, filter,
}
use blog_be.Server.Http.{Request, codes, ends_with}

-- the constructor's arguments, the window in ticks
pub record Limits : Type 0 where
  pub max_attempts : ℕ
  pub window : ℕ

abbrev pub Attempts : Type 0
Attempts = String → List ℕ

abbrev pub set_attempts : Attempts → String → List ℕ → Attempts
set_attempts attempts ip times other = if other == ip then times else attempts other

unfoldable pub is_login : Request → Bool
is_login request = ends_with (codes request.path) (codes "/auth/login") && request.method == "POST"

-- `(request.client.host if request.client else None) or "unknown"`
unfoldable pub peer : Request → String
peer request = elim request.client_host [
  | none ↦ "unknown"
  | some host ↦ if host == "" then "unknown" else host
]

module _ (limits : Limits) where
  abbrev pub is_recent : ℕ → ℕ → Bool
  is_recent now t = ltb (now - t) limits.window

  abbrev pub recent : ℕ → List ℕ → List ℕ
  recent now times = filter (is_recent now) times

  -- The test of one login attempt at a time: whether it passes, and the new attempts.
  unfoldable pub admit : ℕ → String → Attempts → Bool × Attempts
  admit now ip attempts =
      let window = recent now (attempts ip) in
      if leb limits.max_attempts (length window)
      then (false, attempts)
      else (true, set_attempts attempts ip (window ++ now ∷ []))

  -- `dispatch`: true if the request is passed on, false if it is answered by 429
  unfoldable pub dispatch : ℕ → Request → Attempts → Bool × Attempts
  unfolding is_login peer admit
  dispatch now request attempts =
      if is_login request then admit now (peer request) attempts else (true, attempts)

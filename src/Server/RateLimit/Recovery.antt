-- ===== src/Server/RateLimit/Recovery.antt =====
-- A peer that was refused is let in again after one quiet window.
use blog_be.Prelude.{
  ℕ, ◌+◌, ◌≤◌, String, ◌≡◌, refl, true, List, [], ◌∷◌, ◌++◌, ◌==◌, string_eq, leb, length, All,
  All-filter, All-append, arith, inl, inr, Bool-cases,
}
use blog_be.Server.Http.{Request}
use blog_be.Server.RateLimit.{
  Limits, Attempts, set_attempts, is_login, peer, is_recent, recent, admit, dispatch,
}
use blog_be.Server.RateLimit.Laws.{Log, no_attempts, log_of, serve}

-- the requests came until `last`
abbrev pub IsUntil : ℕ → List (ℕ × Request) → Type 0
IsUntil last [] = Unit
IsUntil last ((now, request) ∷ rest) = (now ≤ last) × IsUntil last rest

abbrev pub AttemptsUntil : ℕ → Attempts → Type 0
AttemptsUntil last attempts = (ip : String) → All (λ t. t ≤ last) (attempts ip)

module _ (limits : Limits) where
  recorded-until :
      (last now : ℕ) (ip : String) (attempts : Attempts)
      → now ≤ last
      → AttemptsUntil last attempts
      → AttemptsUntil last (set_attempts attempts ip (recent limits now (attempts ip) ++ now ∷ []))
  recorded-until last now ip attempts h before other = elim (Bool-cases (other == ip)) [
    | inl same ↦ rw same (
        All-append (λ t. t ≤ last) (recent limits now (attempts ip)) (now ∷ [])
          (All-filter (λ t. t ≤ last) (is_recent limits now) (attempts ip) (before ip)) (h, tt))
    | inr ne ↦ rw ne (before other)
  ]

  dispatch-until :
      (last now : ℕ) (request : Request) (attempts : Attempts)
      → now ≤ last
      → AttemptsUntil last attempts
      → AttemptsUntil last (dispatch limits now request attempts).1
  unfolding dispatch admit
  dispatch-until last now request attempts h before = elim (Bool-cases (is_login request)) [
    | inr other ↦ rw other before
    | inl login ↦
        elim (Bool-cases
          (leb limits.max_attempts (length (recent limits now (attempts (peer request)))))) [
            | inl full ↦ rw (login, full) before
            | inr room ↦ rw (login, room) (recorded-until last now (peer request) attempts h before)
          ]
  ]

  serve-until :
      (last : ℕ) (requests : List (ℕ × Request)) (attempts : Attempts) (log : Log)
      → IsUntil last requests
      → AttemptsUntil last attempts
      → AttemptsUntil last (serve limits requests (attempts, log)).0
  serve-until last [] attempts log m before = before
  serve-until last ((now, request) ∷ rest) attempts log m before =
      let (passed, attempts') = dispatch limits now request attempts in
      serve-until last rest attempts' (log_of limits log now request passed) m.1
        (dispatch-until last now request attempts m.0 before)

  none_recent :
      (last now : ℕ) (times : List ℕ)
      → last + limits.window ≤ now
      → All (λ t. t ≤ last) times
      → length (recent limits now times) ≡ 0
  none_recent last now [] h before = refl
  none_recent last now (t ∷ times) h before = ground (arith, none_recent last now times h before.1)

  -- Whatever requests came until `last`, from whatever peers and however many of them were refused: a
  -- window later any login is passed on, if at least one attempt is allowed.
  pub login_recovers :
      (requests : List (ℕ × Request)) (last now : ℕ) (request : Request)
      → 1 ≤ limits.max_attempts
      → IsUntil last requests
      → last + limits.window ≤ now
      → (dispatch limits now request (serve limits requests (no_attempts, no_attempts)).0).0 ≡ true
  unfolding dispatch admit
  login_recovers requests last now request some_allowed until quiet =
      let before : AttemptsUntil last (serve limits requests (no_attempts, no_attempts)).0 =
        serve-until last requests no_attempts no_attempts until (λ ip. tt) in
      let empty =
        none_recent last now ((serve limits requests (no_attempts, no_attempts)).0 (peer request))
          quiet (before (peer request)) in
      ground (arith, empty)

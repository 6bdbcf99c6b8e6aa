-- ===== src/Server/RateLimit/Laws.antt =====
-- No peer gets more than `max_attempts` logins through in any window.
use blog_be.Prelude.{
  ℕ, ◌-◌, ◌≤◌, String, ◌≡◌, refl, Bool, false, ◌&&◌, List, [], ◌∷◌, ◌++◌, string_eq, if◌then◌else◌,
  ltb, leb, length, filter, arith, inl, inr, Bool-cases,
}
use blog_be.Server.Http.{Request}
use blog_be.Server.RateLimit.{
  Limits, Attempts, set_attempts, is_login, peer, recent, admit, dispatch,
}

-- the logins that were passed on, the newest first
abbrev pub Log : Type 0
Log = String → List ℕ

abbrev pub no_attempts : Attempts
no_attempts _ = []

module _ (limits : Limits) where
  -- `t` is at most `now` and less than a window before it
  abbrev pub within : ℕ → ℕ → Bool
  within now t = leb t now && ltb (now - t) limits.window

  abbrev pub count_within : ℕ → List ℕ → ℕ
  count_within now times = length (filter (within now) times)

  -- Requests with their times, served one after the other: the attempts and the log at the end.
  abbrev pub log_of : Log → ℕ → Request → Bool → Log
  log_of log now request passed =
      if is_login request && passed
      then set_attempts log (peer request) (now ∷ log (peer request))
      else log

  abbrev pub serve : List (ℕ × Request) → Attempts × Log → Attempts × Log
  serve [] s = s
  serve ((now, request) ∷ rest) (attempts, log) =
      let (passed, attempts') = dispatch limits now request attempts in
      serve rest (attempts', log_of log now request passed)

  -- the times do not fall, and start at `start` or later
  abbrev pub IsMonotonic : ℕ → List (ℕ × Request) → Type 0
  IsMonotonic start [] = Unit
  IsMonotonic start ((now, _) ∷ rest) = (start ≤ now) × IsMonotonic now rest

  count_within-recent :
      (now later : ℕ) (times : List ℕ)
      → now ≤ later
      → count_within later (recent limits now times) ≡ count_within later times
  count_within-recent now later [] h = refl
  count_within-recent now later (t ∷ times) h =
      ground (arith, count_within-recent now later times h)

  count_within-le : (now : ℕ) (times : List ℕ) → count_within now times ≤ length times
  count_within-le now [] = omega arith
  count_within-le now (t ∷ times) = ground (arith, count_within-le now times)

  count_within-snoc :
      (later now : ℕ) (times : List ℕ)
      → count_within later (times ++ now ∷ []) ≡ count_within later (now ∷ times)
  count_within-snoc later now [] = refl
  count_within-snoc later now (t ∷ times) = ground (arith, count_within-snoc later now times)

  -- What holds between two requests, at a time after which the next request comes.
  record IsCounted (now : ℕ) (attempts : Attempts) (log : Log) : Type 0 where
    kept :
        (ip : String) (later : ℕ)
        → now ≤ later
        → count_within later (log ip) ≡ count_within later (attempts ip)
    bounded : (ip : String) (at : ℕ) → count_within at (log ip) ≤ limits.max_attempts

  admitted-IsCounted :
      (before now : ℕ) (ip : String) (attempts : Attempts) (log : Log)
      → before ≤ now
      → IsCounted before attempts log
      → leb limits.max_attempts (length (recent limits now (attempts ip))) ≡ false
      → IsCounted now
          (set_attempts attempts ip (recent limits now (attempts ip) ++ now ∷ []))
          (set_attempts log ip (now ∷ log ip))
  admitted-IsCounted before now ip attempts log h c room = record {
    kept = λ other later le. ground (
      arith,
      c.kept ip later (omega arith),
      c.kept other later (omega arith),
      count_within-recent now later (attempts ip) le,
      count_within-snoc later now (recent limits now (attempts ip)),
    );
    bounded = λ other at. ground (
      arith,
      c.bounded ip at,
      c.bounded other at,
      c.kept ip at,
      count_within-recent now at (attempts ip),
      count_within-le at (recent limits now (attempts ip)),
    );
  }

  later-IsCounted :
      (before now : ℕ) (attempts : Attempts) (log : Log)
      → before ≤ now
      → IsCounted before attempts log
      → IsCounted now attempts log
  later-IsCounted before now attempts log h c = record {
    kept = λ ip later le. c.kept ip later (omega arith);
    bounded = c.bounded;
  }

  dispatch-IsCounted :
      (before now : ℕ) (request : Request) (attempts : Attempts) (log : Log)
      → before ≤ now
      → IsCounted before attempts log
      → let (passed, attempts') = dispatch limits now request attempts in
        IsCounted now attempts' (log_of log now request passed)
  unfolding dispatch admit
  dispatch-IsCounted before now request attempts log h c = elim (Bool-cases (is_login request)) [
    | inr other ↦ rw other (later-IsCounted before now attempts log h c)
    | inl login ↦
        elim (Bool-cases
          (leb limits.max_attempts (length (recent limits now (attempts (peer request)))))) [
            | inl full ↦ rw (login, full) (later-IsCounted before now attempts log h c)
            | inr room ↦
                rw (login, room)
                  (admitted-IsCounted before now (peer request) attempts log h c room)
          ]
  ]

  serve-bounded :
      (start : ℕ) (requests : List (ℕ × Request)) (attempts : Attempts) (log : Log)
      → IsMonotonic start requests
      → IsCounted start attempts log
      → (ip : String) (at : ℕ)
      → count_within at ((serve requests (attempts, log)).1 ip) ≤ limits.max_attempts
  serve-bounded start [] attempts log m c ip at = c.bounded ip at
  serve-bounded start ((now, request) ∷ rest) attempts log m c ip at =
      let (passed, attempts') = dispatch limits now request attempts in
      serve-bounded now rest attempts' (log_of log now request passed) m.1
        (dispatch-IsCounted start now request attempts log m.0 c) ip at

-- From the start of the process, for requests at times that do not fall, at most `max_attempts` logins
-- of one peer are passed on in any window, wherever the window ends.
pub logins_limited :
    (limits : Limits) (requests : List (ℕ × Request)) (ip : String) (at : ℕ)
    → IsMonotonic limits 0 requests
    → count_within limits at ((serve limits requests (no_attempts, no_attempts)).1 ip)
      ≤ limits.max_attempts
logins_limited limits requests ip at m =
    serve-bounded limits 0 requests no_attempts no_attempts m
      (record { kept = λ other later h. refl; bounded = λ other now. omega arith }) ip at

-- ===== src/Exec/Answered.antt =====
-- Code that returns a result or raises an exception that is answered by a 4xx response.
use blog_be.Prelude.{◌≡◌, refl, Bool, true, false, Option, none, some, ltb}
use blog_be.Error.{Error, custom, request_validation_error}
use blog_be.Exec.{Result, ok, err, Exec, bind, or_raise, raise_if}

-- The errors that the handlers of `init_app` turn into a 4xx response. Starlette answers any other by 500.
abbrev pub is_refusal : Error → Bool
is_refusal (custom exc) = ltb exc.status_code 500
is_refusal request_validation_error = true
is_refusal _ = false

abbrev pub answered : {A : Type 0} → Result A → Bool
answered (ok a) = true
answered (err e) = is_refusal e

module _ {S A : Type 0} where
  pub answered-bind :
      {B : Type 0} (x : Result A × S) (f : A → Exec S B)
      → answered x.0 ≡ true
      → ((a : A) (s : S) → answered (f a s).0 ≡ true)
      → answered (bind x f).0 ≡ true
  answered-bind (ok a, s) f h k = k a s
  answered-bind (err e, s) f h k = h

  pub answered-or_raise :
      (o : Option A) (e : Error) (s : S) → is_refusal e ≡ true → answered (or_raise o e s).0 ≡ true
  answered-or_raise none e s h = h
  answered-or_raise (some a) e s h = refl

pub answered-raise_if :
    {S : Type 0} (t : Bool) (e : Error) (s : S)
    → is_refusal e ≡ true
    → answered (raise_if t e s).0 ≡ true
answered-raise_if true e s h = h
answered-raise_if false e s h = refl

-- ===== src/Exec/Keeps.antt =====
-- A property of the state that a chain of steps keeps, whether it raises or not.
use blog_be.Prelude.{Bool, true, false, Option, none, some}
use blog_be.Error.{Error}
use blog_be.Exec.{Result, ok, err, Exec, bind, or_raise, raise_if}

module _ {S : Type 0} (P : S → Type 0) where
  abbrev pub Keeps : {A : Type 0} → Exec S A → Type 0
  Keeps m = (s : S) → P s → P (m s).1

  pub bind-Keeps :
      {A B : Type 0} (x : Result A × S) (f : A → Exec S B)
      → P x.1
      → ((a : A) → Keeps (f a))
      → P (bind x f).1
  bind-Keeps (ok a, s) f p k = k a s p
  bind-Keeps (err e, s) f p k = p

  pub or_raise-Keeps : {A : Type 0} (o : Option A) (e : Error) → Keeps (or_raise o e)
  or_raise-Keeps none e s p = p
  or_raise-Keeps (some a) e s p = p

  pub raise_if-Keeps : (t : Bool) (e : Error) → Keeps (raise_if t e)
  raise_if-Keeps true e s p = p
  raise_if-Keeps false e s p = p

-- ===== src/Prelude/Returning.antt =====
-- Actions whose value, where they return one, has a property.
use mathlib.Core.Bool.{Bool, true, false}
use openevent_modules_im.Prelude.Equality.{if◌then◌else◌}
use openevent_modules_im.Prelude.Results.{Result, ok, raise, Error}
use openevent_modules_im.Prelude.Actions.{Action, pure, throw, and_then, ◌>>=◌}
use openevent_modules_im.Prelude.Ensuring.{Ensured, accepted, refused}

module _ {S A : Type 0} (P : A → Type 0) where
  pub record Returns (action : Action S A) : Type 0 where
    pub returned : (s : S) → Ensured (λ e. Unit {0}) P (action s).0

  pub value-Returns : (a : A) → P a → Returns (pure a)
  value-Returns a h = record { returned = λ s. accepted h }

  pub throw-Returns : (e : Error) → Returns (throw e)
  throw-Returns e = record { returned = λ s. refused tt }

  and_then-Returns :
      {B : Type 0} (r : Result B) (f : B → Action S A)
      → ((b : B) → Returns (f b))
      → Returns (and_then r f)
  and_then-Returns (ok b) f h = h b
  and_then-Returns (raise e) f h = throw-Returns e

  pub bind-Returns :
      {B : Type 0} (m : Action S B) (f : B → Action S A)
      → ((b : B) → Returns (f b))
      → Returns (m >>= f)
  bind-Returns m f h = record { returned = λ s. (and_then-Returns (m s).0 f h).returned (m s).1 }

  pub if-Returns :
      (b : Bool) (x y : Action S A) → Returns x → Returns y → Returns (if b then x else y)
  if-Returns true x y h k = h
  if-Returns false x y h k = k

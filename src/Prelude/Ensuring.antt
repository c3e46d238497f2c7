-- ===== src/Prelude/Ensuring.antt =====
-- Results whose value has a property and whose error has another.
use mathlib.Core.Bool.{Bool, true, false}
use mathlib.Core.Path.{◌≡◌, refl}
use openevent_modules_im.Prelude.Equality.{if◌then◌else◌}
use openevent_modules_im.Prelude.Results.{Result, ok, raise, Error, ◌>>=◌}

pub data Ensured {A : Type 0} (R : Error → Type 0) (P : A → Type 0) : Result A → Type 0 where
  accepted : {a : A} → P a → Ensured R P (ok a)
  refused : {e : Error} → R e → Ensured R P (raise e)

module _ {R : Error → Type 0} {A : Type 0} where
  pub ensure :
      {B : Type 0} {P : A → Type 0} {Q : B → Type 0} {r : Result A} {f : A → Result B}
      → Ensured R P r
      → ((a : A) → P a → Ensured R Q (f a))
      → Ensured R Q (r >>= f)
  ensure (accepted h) k = k _ h
  ensure (refused h) k = refused h

  pub either :
      {P : A → Type 0} (b : Bool) {x y : Result A}
      → (b ≡ true → Ensured R P x)
      → (b ≡ false → Ensured R P y)
      → Ensured R P (if b then x else y)
  either true h k = h refl
  either false h k = k refl

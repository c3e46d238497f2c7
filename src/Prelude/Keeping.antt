-- ===== src/Prelude/Keeping.antt =====
-- Actions that keep a property of the state, whether they raise or not.
use mathlib.Core.Bool.{Bool, true, false}
use openevent_modules_im.Prelude.Equality.{if◌then◌else◌}
use openevent_modules_im.Prelude.Results.{Result, ok, raise, Error}
use openevent_modules_im.Prelude.Actions.{Action, of_result, and_then, try_except, get_state, ◌>>=◌}

module _ {S : Type 0} (P : S → Type 0) where
  pub record Keeps {A : Type 0} (action : Action S A) : Type 0 where
    pub kept : (s : S) → P s → P (action s).1

  pub result-Keeps : {A : Type 0} (r : Result A) → Keeps (of_result r)
  result-Keeps r = record { kept = λ s p. p }

  pub and_then-Keeps :
      {A B : Type 0} (r : Result A) (f : A → Action S B)
      → ((a : A) → Keeps (f a))
      → Keeps (and_then r f)
  and_then-Keeps (ok a) f h = h a
  and_then-Keeps (raise e) f h = result-Keeps (raise e)

  pub bind-Keeps :
      {A B : Type 0} (a : Action S A) (f : A → Action S B)
      → Keeps a
      → ((x : A) → Keeps (f x))
      → Keeps (a >>= f)
  bind-Keeps a f keeps h = record {
    kept = λ s p. (and_then-Keeps (a s).0 f h).kept (a s).1 (keeps.kept s p);
  }

  handled-Keeps :
      {A : Type 0} (r : Result A) (after : S) (handler : Error → Action S A)
      → ((e : Error) → Keeps (handler e))
      → P after
      → P (elim r as (λ x. Result A × S) [ ok a ↦ (ok a, after) | raise e ↦ handler e after ]).1
  handled-Keeps (ok a) after handler h p = p
  handled-Keeps (raise e) after handler h p = (h e).kept after p

  pub try-Keeps :
      {A : Type 0} (body : Action S A) (handler : Error → Action S A)
      → Keeps body
      → ((e : Error) → Keeps (handler e))
      → Keeps (try_except body handler)
  try-Keeps body handler keeps h = record {
    kept = λ s p. handled-Keeps (body s).0 (body s).1 handler h (keeps.kept s p);
  }

  pub if-Keeps :
      {A : Type 0} (b : Bool) (x y : Action S A) → Keeps x → Keeps y → Keeps (if b then x else y)
  if-Keeps true x y h k = h
  if-Keeps false x y h k = k

  -- What follows `get_state`, in the state that it is given.
  pub state-Keeps :
      {A : Type 0} (f : S → Action S A) → ((s : S) → P s → P (f s s).1) → Keeps (get_state >>= f)
  state-Keeps f h = record { kept = h }

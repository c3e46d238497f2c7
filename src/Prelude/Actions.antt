-- ===== src/Prelude/Actions.antt =====
-- Statements that change a state and may raise. The state outlives an exception.
use openevent_modules_im.Prelude.Results.{Result, ok, raise, Error}

abbrev pub Action : Type 0 → Type 0 → Type 0
Action S A = S → Result A × S

module _ {S A : Type 0} where
  abbrev pub pure : A → Action S A
  pure a s = (ok a, s)

  abbrev pub throw : Error → Action S A
  throw e s = (raise e, s)

  abbrev pub of_result : Result A → Action S A
  of_result r s = (r, s)

  -- `try: body except e: handler(e)`
  abbrev pub try_except : Action S A → (Error → Action S A) → Action S A
  try_except body handler s =
      let (result, after) = body s in
      elim result [ ok a ↦ (ok a, after) | raise e ↦ handler e after ]

abbrev pub get_state : {S : Type 0} → Action S S
get_state s = (ok s, s)

module _ {S A B : Type 0} where
  abbrev pub and_then : Result A → (A → Action S B) → Action S B
  and_then (ok a) f = f a
  and_then (raise e) f = throw e

  infixl 5 ◌>>=◌ ◌>>◌
  abbrev pub ◌>>=◌ : Action S A → (A → Action S B) → Action S B
  m >>= f = λ s. let (result, after) = m s in and_then result f after

  abbrev pub ◌>>◌ : Action S A → Action S B → Action S B
  m >> n = m >>= λ _. n

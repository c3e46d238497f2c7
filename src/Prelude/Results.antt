-- ===== src/Prelude/Results.antt =====
-- Python's exceptions, and code that may raise. An exception is its class, and what it was
-- raised `from`.
use mathlib.Core.Path.{◌≡◌, refl}
use mathlib.Core.Bool.{Bool, true, false}
use mathlib.Core.Option.{Option, some}

-- grpc's `StatusCode`.
pub data StatusCode : Type 0 where
  status_ok cancelled unknown invalid_argument deadline_exceeded : StatusCode
  not_found already_exists permission_denied unauthenticated resource_exhausted : StatusCode
  failed_precondition aborted out_of_range unimplemented internal unavailable : StatusCode
  data_loss : StatusCode

-- The classes of the exceptions. `untyped` is raised by the model alone, where a value does not
-- have the type that the source states for it. `decode_error` is
-- json.JSONDecodeError or UnicodeDecodeError. `rpc_error none` has a `code()` that raises.
pub data Class : Type 0 where
  malformed_payload invalid_kind config_error state_conflict : Class
  fatal_syncer syncer_stopped : Class
  provider_data permanent_provider transient_provider : Class
  key_error value_error decode_error runtime_error untyped other : Class
  publish_failed : (retry_safe outcome_unknown : Bool) → Class
  rpc_error : Option StatusCode → Class

pub data Error : Type 0 where
  error : Class → Error
  caused_by : Class → Error → Error

pub data Result {ℓ} (A : Type ℓ) : Type ℓ where
  ok : A → Result A
  raise : Error → Result A

module _ {ℓ κ} {A : Type ℓ} {B : Type κ} where
  infixl 5 ◌>>=◌ ◌>>◌
  -- What follows `m`, on its value.
  abbrev pub ◌>>=◌ : Result A → (A → Result B) → Result B
  raise e >>= rest = raise e
  ok value >>= rest = rest value

  abbrev pub ◌>>◌ : Result A → Result B → Result B
  m >> rest = m >>= λ _. rest

  pub >>=-eq-ok :
      (m : Result A) (rest : A → Result B) {b : B}
      → (m >>= rest) ≡ ok b
      → (a : A) × (m ≡ ok a) × (rest a ≡ ok b)
  >>=-eq-ok (raise e) rest h = cc
  >>=-eq-ok (ok value) rest h = (value, refl, h)

-- `if not b: raise e`
abbrev pub require : Bool → Error → Result (Unit {0})
require false e = raise e
require true e = ok tt

pub ok_injective {ℓ} : {A : Type ℓ} {a b : A} → ok a ≡ ok b → a ≡ b
ok_injective h = cc

pub some_injective {ℓ} : {A : Type ℓ} {a b : A} → some a ≡ some b → a ≡ b
some_injective h = cc

-- ===== src/Config/Values.antt =====
-- The checks of a single value in config.py. A loaded YAML value is a `Json` here: infinities, NaN,
-- dates and keys that are no text are left out. `ConfigError` carries no message.
use openevent_modules_im.Prelude.{
  ℕ, suc, ◌^◌, ◌-◌, String, Bool, true, false, List, [], ◌∷◌, ◌==◌, ◌||◌, string_eq, if◌then◌else◌,
  leb, Result, ok, raise, Error, error, caused_by, config_error, malformed_payload, other, ◌>>=◌,
  error_class, Class,
}
use openevent_modules_im.Json.{Json, int, pos, negsuc, float, str, arr, obj, Items, Fields, has}
use openevent_modules_im.Sdk.Normalizer.{require_uint64}

abbrev pub invalid_config : Error
invalid_config = error config_error

-- `_obj`
unfoldable pub config_obj : Json → Result Fields
config_obj (obj f) = ok f
config_obj value = raise invalid_config

-- `_str`
unfoldable pub config_str : Json → Result String
config_str (str s) = if s == "" then raise invalid_config else ok s
config_str value = raise invalid_config

-- `_identity_type`
unfoldable pub config_identity_type : Json → Result String
config_identity_type value = do
  identity_type ← config_str value
  if identity_type == "user" || identity_type == "bot"
      then ok identity_type
      else raise invalid_config

-- `fields & value.keys()`, as a test.
unfoldable pub has_any : List String → Fields → Bool
has_any [] value = false
has_any (name ∷ names) value = has name value || has_any names value

unfoldable pub reject_removed_fields : Fields → List String → Result (Unit {0})
reject_removed_fields value fields = if has_any fields value then raise invalid_config else ok tt

-- The `except MalformedPayloadError` of `_positive_uint64`.
unfoldable pub on_malformed : Error → Class → Error
on_malformed e malformed_payload = caused_by config_error e
on_malformed e c = e

unfoldable pub positive_uint64 : Json → Result ℕ
positive_uint64 value = elim (require_uint64 value true) [
  | ok n ↦ ok n
  | raise e ↦ raise (on_malformed e (error_class e))
]

unfoldable pub positive_int : Json → Result ℕ
positive_int (int (pos (suc n))) = ok (suc n)
positive_int value = raise invalid_config

unfoldable pub non_negative_int : Json → Result ℕ
non_negative_int (int (pos n)) = ok n
non_negative_int value = raise invalid_config

-- The least integer for which `float` raises OverflowError.
abbrev pub float_overflow : ℕ
float_overflow = 2 ^ 1024 - 2 ^ 970

-- `_positive_number`, whose result is not used; `float` raises OverflowError, which is an `other`.
unfoldable pub positive_number : Json → Result (Unit {0})
positive_number (int (pos (suc n))) =
    if leb float_overflow (suc n) then raise (error other) else ok tt
positive_number (int (negsuc n)) =
    if leb float_overflow (suc n) then raise (error other) else raise invalid_config
positive_number (float (pos (suc m)) e) = ok tt
positive_number value = raise invalid_config

-- An array that is not empty.
unfoldable pub non_empty_array : Json → Result (Json × Items)
non_empty_array (arr (Items.cons item items)) = ok (item, items)
non_empty_array value = raise invalid_config

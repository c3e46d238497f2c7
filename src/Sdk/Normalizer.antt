-- ===== src/Sdk/Normalizer.antt =====
-- im_sdk/normalizer.py.
use openevent_modules_im.Prelude.{
  ℕ, ◌^◌, ◌-◌, String, Bool, false, ◌&&◌, Option, List, [], ◌∷◌, ltb, ◌==◌, distinct, sorted,
  if◌then◌else◌, nat_eq, string_eq, none, some, Result, ok, raise, Error, error, malformed_payload,
  ◌>>=◌, ◌>>◌,
}
use openevent_modules_im.Json.{
  pos, Json, int, str, arr, obj, Items, nil, cons, Fields, end, field, has,
}

abbrev pub uint64_max : ℕ
uint64_max = 2 ^ 64 - 1

abbrev pub malformed : Error
malformed = error malformed_payload

unfoldable pub require_uint64 : Json → Bool → Result ℕ
require_uint64 (int (pos n)) positive =
    if ltb uint64_max n
    then raise malformed
    else if positive && n == 0
    then raise malformed
    else ok n
require_uint64 value positive = raise malformed

unfoldable pub require_timestamp_ms : Json → Result ℕ
require_timestamp_ms (int (pos n)) = ok n
require_timestamp_ms value = raise malformed

unfoldable pub require_non_empty_str : Json → Result String
require_non_empty_str (str s) = if s == "" then raise malformed else ok s
require_non_empty_str value = raise malformed

unfoldable pub require_object : Json → Result Fields
require_object (obj f) = ok f
require_object value = raise malformed

-- The comprehension of `normalize_recipients`.
unfoldable pub require_all : List Json → Result (List ℕ)
require_all [] = ok []
require_all (v ∷ vs) = do n ← require_uint64 v false; ns ← require_all vs; ok (n ∷ ns)

unfoldable pub normalize_recipients : Option (List Json) → Bool → Result (List ℕ)
unfolding require_all
normalize_recipients none sort_unique = ok []
normalize_recipients (some values) sort_unique = do
  result ← require_all values
  if sort_unique then ok (sorted (distinct result)) else ok result

-- Python's stack is taken to be deep enough for the nesting of the value: the RecursionError beyond it
-- is left out.
unfoldable mutual
  pub reject_source_principal : Json → Result (Unit {0})
  reject_source_principal (obj f) =
      if has "source_principal" f then raise malformed else reject_children f
  reject_source_principal (arr xs) = reject_items xs
  reject_source_principal value = ok tt

  pub reject_children : Fields → Result (Unit {0})
  reject_children end = ok tt
  reject_children (field k v f) = reject_source_principal v >> reject_children f

  pub reject_items : Items → Result (Unit {0})
  reject_items nil = ok tt
  reject_items (cons x xs) = reject_source_principal x >> reject_items xs

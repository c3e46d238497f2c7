-- ===== src/Sdk/Checking.antt =====
-- What `parse_payload_object` accepts and raises.
use openevent_modules_im.Prelude.{
  ℕ, ◌≡◌, ◌⊎◌, inl, inr, refl, String, Bool, true, false, ◌||◌, ◌&&◌, ltb, ◌==◌, string_eq, nat_eq,
  contains, Result, raise, Error, error, invalid_kind, require,
}
use openevent_modules_im.Prelude.Ensuring.{Ensured, accepted, refused, ensure, either}
use openevent_modules_im.Json.{
  Json, int, pos, str, arr, obj, Fields, Items, nil, cons, end, field, has, get,
}
use openevent_modules_im.Sdk.Normalizer.{
  uint64_max, malformed, require_uint64, require_timestamp_ms, require_non_empty_str,
  require_object, reject_source_principal, reject_children, reject_items,
}
use openevent_modules_im.Sdk.Codec.{
  valid_kinds, valid_statuses, when, ignore, require_kind, check_kind, check_envelope,
  parse_payload_object,
}

-- MalformedPayloadError or InvalidKindError.
abbrev pub IsInvalid : Error → Type 0
IsInvalid e = (e ≡ malformed) ⊎ (e ≡ error invalid_kind)

abbrev pub Checks : {A : Type 0} → (A → Type 0) → Result A → Type 0
Checks P r = Ensured IsInvalid P r

pub is_malformed : {A : Type 0} {P : A → Type 0} → Checks P (raise malformed)
is_malformed = refused (inl refl)

pub require_uint64-Checks :
    (v : Json) (positive : Bool) → Checks (λ n. v ≡ int (pos n)) (require_uint64 v positive)
unfolding require_uint64
require_uint64-Checks (int (pos n)) positive =
    either (ltb uint64_max n) (λ h. is_malformed)
      λ h. either (positive && n == 0) (λ h. is_malformed) (λ h. accepted refl)
require_uint64-Checks v positive = is_malformed

require_timestamp_ms-Checks : (v : Json) → Checks (λ n. v ≡ int (pos n)) (require_timestamp_ms v)
unfolding require_timestamp_ms
require_timestamp_ms-Checks (int (pos n)) = accepted refl
require_timestamp_ms-Checks v = is_malformed

require_non_empty_str-Checks : (v : Json) → Checks (λ s. v ≡ str s) (require_non_empty_str v)
unfolding require_non_empty_str
require_non_empty_str-Checks (str s) = either (s == "") (λ h. is_malformed) (λ h. accepted refl)
require_non_empty_str-Checks v = is_malformed

require_object-Checks : (v : Json) → Checks (λ f. v ≡ obj f) (require_object v)
unfolding require_object
require_object-Checks (obj f) = accepted refl
require_object-Checks v = is_malformed

require_kind-Checks : (v : Json) → Checks (λ s. v ≡ str s) (require_kind v)
unfolding require_kind
require_kind-Checks (str s) =
    either (contains valid_kinds s) (λ h. accepted refl) (λ h. refused (inr refl))
require_kind-Checks v = is_malformed

mutual
  unfolding reject_source_principal reject_children reject_items

  reject_source_principal-Checks : (v : Json) → Checks (λ u. Unit) (reject_source_principal v)
  reject_source_principal-Checks (obj f) =
      either (has "source_principal" f) (λ h. is_malformed) (λ h. reject_children-Checks f)
  reject_source_principal-Checks (arr xs) = reject_items-Checks xs
  reject_source_principal-Checks v = accepted tt

  reject_children-Checks : (f : Fields) → Checks (λ u. Unit) (reject_children f)
  reject_children-Checks end = accepted tt
  reject_children-Checks (field k v f) =
      ensure (reject_source_principal-Checks v) λ u t. reject_children-Checks f

  reject_items-Checks : (xs : Items) → Checks (λ u. Unit) (reject_items xs)
  reject_items-Checks nil = accepted tt
  reject_items-Checks (cons x xs) =
      ensure (reject_source_principal-Checks x) λ u t. reject_items-Checks xs

-- A number, where there is one.
abbrev pub HasNumber : Fields → Type 0
HasNumber payload = has "prev_seq" payload ≡ true → (n : ℕ) × (get "prev_seq" payload ≡ int (pos n))

ignore-Checks :
    {A : Type 0} {P : A → Type 0} (m : Result A) → Checks P m → Checks (λ u. Unit) (ignore m)
unfolding ignore
ignore-Checks m c = ensure c λ a h. accepted tt

when-Checks :
    (b : Bool) (m : Result (Unit {0})) → Checks (λ u. Unit) m → Checks (λ u. Unit) (when b m)
unfolding when
when-Checks true m c = c
when-Checks false m c = accepted tt

require-Checks : (b : Bool) → Checks (λ u. Unit) (require b malformed)
require-Checks true = accepted tt
require-Checks false = is_malformed

ensure_only :
    {A : Type 0} {P : A → Type 0} {Q : Type 0} {r : Result A} → Q → Checks P r → Checks (λ a. Q) r
ensure_only q (accepted h) = accepted q
ensure_only q (refused h) = refused h

when_last :
    {Q : Type 0} (b : Bool) (m : Result (Unit {0}))
    → Q
    → Checks (λ u. Unit) m
    → Checks (λ u. Q) (when b m)
unfolding when
when_last true m q c = ensure_only q c
when_last false m q c = accepted q

when_number-Checks :
    (b : Bool) (v : Json)
    → Checks
        (λ u. b ≡ true → (n : ℕ) × (v ≡ int (pos n)))
        (when b (ignore (require_uint64 v false)))
unfolding when ignore
when_number-Checks true v =
    ensure (require_uint64-Checks v false) λ n same. accepted (λ h. (n, same))
when_number-Checks false v = accepted (λ h. absurd (cc))

check_kind-Checks :
    (kind : String) (payload data_fields timestamps : Fields)
    → Checks (λ u. HasNumber payload) (check_kind kind payload data_fields timestamps)
unfolding check_kind
check_kind-Checks kind payload data_fields timestamps =
    ensure
      (when-Checks (kind == "sync.record") _ (
        ensure (require_timestamp_ms-Checks _) λ a h.
          ensure (require_non_empty_str-Checks _) λ b h'.
            ensure (require_non_empty_str-Checks _) λ c h2.
              ignore-Checks (require_object (get "content_raw" data_fields))
                (require_object-Checks _)))
      λ u t.
        ensure (when_number-Checks (has "prev_seq" payload) (get "prev_seq" payload)) λ u' number.
          ensure
            (when-Checks (kind == "send.request" || kind == "send.result") _ (
              ignore-Checks (require_non_empty_str (get "request_id" payload))
                (require_non_empty_str-Checks _)))
            λ u2 t2.
              ensure
                (when-Checks (kind == "send.request") _ (
                  ensure (require_non_empty_str-Checks _) λ a h.
                    ignore-Checks (require_object (get "content" data_fields))
                      (require_object-Checks _)))
                λ u3 t3. when_last (kind == "send.result") _ number (
                  ensure (require_uint64-Checks _ false) λ n h.
                    ensure (require_non_empty_str-Checks _)
                      λ status h'. require-Checks (contains valid_statuses status))

-- What the source relies on in a payload that `decode_payload` accepts.
pub record IsTyped (payload : Fields) : Type 0 where
  pub kind : String
  pub has_kind : get "kind" payload ≡ str kind
  pub data_fields : Fields
  pub has_data : get "data" payload ≡ obj data_fields
  pub timestamps : Fields
  pub has_timestamps : get "timestamps" payload ≡ obj timestamps
  pub event_ms : ℕ
  pub has_event_ms : get "event_ms" timestamps ≡ int (pos event_ms)
  pub prev_seq : HasNumber payload

check_envelope-Checks : (payload : Fields) → Checks (λ f. IsTyped f) (check_envelope payload)
unfolding check_envelope
check_envelope-Checks payload = ensure (require_kind-Checks _) λ kind has_kind.
    ensure (require_object-Checks _) λ data_fields has_data.
      ensure (require_object-Checks _) λ timestamps has_timestamps.
        ensure (require_timestamp_ms-Checks _) λ event_ms has_event_ms.
          ensure (check_kind-Checks kind payload data_fields timestamps) λ u prev_seq.
            accepted (record {
              kind = kind;
              has_kind = has_kind;
              data_fields = data_fields;
              has_data = has_data;
              timestamps = timestamps;
              has_timestamps = has_timestamps;
              event_ms = event_ms;
              has_event_ms = has_event_ms;
              prev_seq = prev_seq;
            })

pub parse_payload_object-Checks : (v : Json) → Checks (λ f. IsTyped f) (parse_payload_object v)
unfolding parse_payload_object
parse_payload_object-Checks v = ensure (require_object-Checks v) λ payload same.
    ensure (reject_source_principal-Checks (obj payload)) λ u t. check_envelope-Checks payload

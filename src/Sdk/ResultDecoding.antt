-- ===== src/Sdk/ResultDecoding.antt =====
-- What `decode_payload` makes of the bytes of `encode_send_result`.
use openevent_modules_im.Prelude.{
  ℕ, ◌≡◌, refl, ◌∙◌, ap, subst, String, Bool, true, false, none, some, ◌==◌, contains, string_eq,
  arith, Result, ok, raise, ok_injective, Error, ◌>>=◌, ◌>>◌, require, >>=-eq-ok, if_ind,
}
use openevent_modules_im.Json.{
  pos, Json, null, bool, int, float, str, arr, obj, Fields, end, field, has, get, get_default, put,
  find, find-put,
}
use openevent_modules_im.Sdk.Model.{SendResultInput}
use openevent_modules_im.Sdk.Normalizer.{
  malformed, require_uint64, require_timestamp_ms, require_non_empty_str, require_object,
  reject_source_principal, reject_children,
}
use openevent_modules_im.Sdk.Codec.{
  str_value, valid_statuses, when, ignore, require_kind, check_kind, check_envelope,
  parse_payload_object, put_unless_null, send_result_payload, encode_send_result, decode_payload,
}
use openevent_modules_im.Sdk.Decoding.{after_reject, require_non_empty_str-str, require_uint64-int}

-- A `data` object that the decoder accepts in a send.result, with its status.
record IsClean (status : String) (d : Fields) : Type 0 where
  no_source : find "source_principal" d ≡ none
  children : reject_children d ≡ ok tt
  has_status : find "status" d ≡ some (str status)

>>-eq-ok : (m n : Result (Unit {0})) → (m >> n) ≡ ok tt → (m ≡ ok (tt {0})) × (n ≡ ok (tt {0}))
>>-eq-ok (ok x) n h = (refl, h)
>>-eq-ok (raise e) n h = absurd (ground arith)

reject_children-put :
    (k v : String) (d : Fields)
    → reject_children d ≡ ok tt
    → reject_children (put k (str v) d) ≡ ok tt
unfolding put reject_source_principal
reject_children-put k v end h = refl
reject_children-put k v (field j w d) h =
    let (clean, rest) = >>-eq-ok (reject_source_principal w) (reject_children d) h in
    if_ind (λ f. reject_children f ≡ ok tt) (k == j) _ _ (λ same. rest)
      (λ other. rw clean (reject_children-put k v d rest))

put-IsClean :
    (status k v : String) (d : Fields)
    → (k == "source_principal") ≡ false
    → (k == "status") ≡ false
    → IsClean status d
    → IsClean status (put k (str v) d)
put-IsClean status k v d a b c = record {
  no_source = ground (arith, find-put "source_principal" k (str v) d, c.no_source);
  children = reject_children-put k v d c.children;
  has_status = ground (arith, find-put "status" k (str v) d, c.has_status);
}

given_str :
    (status k : String) (d : Fields) {d' : Fields} (m : Result String)
    → (k == "source_principal") ≡ false
    → (k == "status") ≡ false
    → IsClean status d
    → ((m >>= λ s. ok (str s)) >>= λ v. ok (put k v d)) ≡ ok d'
    → IsClean status d'
given_str status k d (ok s) a b c h =
    subst (IsClean status) (ok_injective h) (put-IsClean status k s d a b c)
given_str status k d (raise e) a b c h = absurd (ground arith)

put_unless_null-IsClean :
    (status k : String) (v : Json) (d : Fields) {d' : Fields}
    → (k == "source_principal") ≡ false
    → (k == "status") ≡ false
    → IsClean status d
    → put_unless_null k v str_value d ≡ ok d'
    → IsClean status d'
unfolding put_unless_null
put_unless_null-IsClean status k null d a b c h = subst (IsClean status) (ok_injective h) c
put_unless_null-IsClean status k (str s) d a b c h = given_str status k d _ a b c h
put_unless_null-IsClean status k (int n) d a b c h = given_str status k d _ a b c h
put_unless_null-IsClean status k (bool x) d a b c h = given_str status k d _ a b c h
put_unless_null-IsClean status k (float m n) d a b c h = given_str status k d _ a b c h
put_unless_null-IsClean status k (arr xs) d a b c h = given_str status k d _ a b c h
put_unless_null-IsClean status k (obj f) d a b c h = given_str status k d _ a b c h

abbrev result_object : ℕ → String → Fields → ℕ → Fields
result_object prev_seq request_id d event_ms = field "kind" (str "send.result") (
    field "prev_seq" (int (pos prev_seq)) (
      field "request_id" (str request_id) (
        field "data" (obj d)
          (field "timestamps" (obj (field "event_ms" (int (pos event_ms)) end)) end))))

require_non_empty_str-ok : (s : String) → (s == "") ≡ false → require_non_empty_str (str s) ≡ ok s
unfolding require_non_empty_str
require_non_empty_str-ok s h = rw h refl

module _ (prev_seq : ℕ) (request_id : String) (d : Fields) (event_ms : ℕ) where
  get_prev_seq : get "prev_seq" (result_object prev_seq request_id d event_ms) ≡ int (pos prev_seq)
  unfolding get get_default find string_eq
  get_prev_seq = refl

  has_prev_seq : has "prev_seq" (result_object prev_seq request_id d event_ms) ≡ true
  unfolding has find string_eq
  has_prev_seq = refl

  get_request_id : get "request_id" (result_object prev_seq request_id d event_ms) ≡ str request_id
  unfolding get get_default find string_eq
  get_request_id = refl

module _ (prev_seq : ℕ) (request_id : String) (d : Fields) (event_ms : ℕ) where
  abbrev result_times : Fields
  result_times = field "event_ms" (int (pos event_ms)) end

  kind_accepted :
      {status : String}
      → require_non_empty_str (str request_id) ≡ ok request_id
      → require_uint64 (int (pos prev_seq)) false ≡ ok prev_seq
      → require_non_empty_str (get "status" d) ≡ ok status
      → contains valid_statuses status ≡ true
      → check_kind "send.result" (result_object prev_seq request_id d event_ms) d result_times
        ≡ ok tt
  unfolding check_kind when ignore string_eq
  kind_accepted h u k v = rw (linked, there, u, named, h, k, v) refl
    where
      payload : Fields
      payload = result_object prev_seq request_id d event_ms

      there : get "prev_seq" payload ≡ int (pos prev_seq)
      there = get_prev_seq prev_seq request_id d event_ms

      linked : has "prev_seq" payload ≡ true
      linked = has_prev_seq prev_seq request_id d event_ms

      named : get "request_id" payload ≡ str request_id
      named = get_request_id prev_seq request_id d event_ms

  envelope_accepted :
      check_kind "send.result" (result_object prev_seq request_id d event_ms) d result_times ≡ ok tt
      → check_envelope (result_object prev_seq request_id d event_ms)
        ≡ ok (result_object prev_seq request_id d event_ms)
  unfolding check_envelope require_object require_kind find get get_default require_timestamp_ms
      string_eq
  envelope_accepted h = rw h refl

module _ (prev_seq : ℕ) (request_id status : String) (d : Fields) (event_ms : ℕ)
    (c : IsClean status d) where
  reject_result :
      reject_source_principal (obj (result_object prev_seq request_id d event_ms)) ≡ ok tt
  unfolding reject_source_principal has find string_eq
  reject_result = rw (c.no_source, c.children) refl

  get_status : get "status" d ≡ str status
  unfolding get get_default
  get_status = ground (arith, c.has_status)

  check_result :
      (request_id == "") ≡ false
      → (status == "") ≡ false
      → contains valid_statuses status ≡ true
      → require_uint64 (int (pos prev_seq)) false ≡ ok prev_seq
      → check_envelope (result_object prev_seq request_id d event_ms)
        ≡ ok (result_object prev_seq request_id d event_ms)
  check_result h k v u = envelope_accepted prev_seq request_id d event_ms (
      kind_accepted prev_seq request_id d event_ms (require_non_empty_str-ok request_id h) u
        (ap require_non_empty_str get_status ∙ require_non_empty_str-ok status k) v)

provider_message_id_key :
    ((◌==◌ {A = String} "provider_message_id" "source_principal") ≡ false)
    × ((◌==◌ {A = String} "provider_message_id" "status") ≡ false)
unfolding string_eq
provider_message_id_key = (refl, refl)

error_code_key :
    ((◌==◌ {A = String} "error_code" "source_principal") ≡ false)
    × ((◌==◌ {A = String} "error_code" "status") ≡ false)
unfolding string_eq
error_code_key = (refl, refl)

error_message_key :
    ((◌==◌ {A = String} "error_message" "source_principal") ≡ false)
    × ((◌==◌ {A = String} "error_message" "status") ≡ false)
unfolding string_eq
error_message_key = (refl, refl)

status_IsClean : (status : String) → IsClean status (field "status" (str status) end)
unfolding find reject_source_principal string_eq
status_IsClean status = record { no_source = refl; children = refl; has_status = refl }

require-true : (b : Bool) (e : Error) {x : Unit {0}} → require b e ≡ ok x → b ≡ true
require-true true e h = refl
require-true false e h = absurd (ground arith)

send_result_payload-decoded :
    (req : SendResultInput) {payload : Fields}
    → send_result_payload req ≡ ok payload
    → parse_payload_object (obj payload) ≡ ok payload
unfolding send_result_payload
send_result_payload-decoded req h =
    let (id, id_ok, h1) = >>=-eq-ok (require_non_empty_str req.request_id) _ h in
    let (seq, seq_ok, h2) = >>=-eq-ok (require_uint64 req.prev_seq false) _ h1 in
    let (status, status_ok, h3) = >>=-eq-ok (require_non_empty_str req.status) _ h2 in
    let (x, valid, h4) = >>=-eq-ok (require (contains valid_statuses status) malformed) _ h3 in
    let (ms, ms_ok, h5) = >>=-eq-ok (require_timestamp_ms req.event_ms) _ h4 in
    let (d1, d1_ok, h6) =
      >>=-eq-ok (put_unless_null "provider_message_id" req.provider_message_id str_value _) _ h5 in
    let (d2, d2_ok, h7) =
      >>=-eq-ok (put_unless_null "error_code" req.error_code str_value d1) _ h6 in
    let (d3, d3_ok, h8) =
      >>=-eq-ok (put_unless_null "error_message" req.error_message str_value d2) _ h7 in
    let c1 =
      put_unless_null-IsClean status "provider_message_id" req.provider_message_id _
        provider_message_id_key.0 provider_message_id_key.1 (status_IsClean status) d1_ok in
    let c2 =
      put_unless_null-IsClean status "error_code" req.error_code d1 error_code_key.0
        error_code_key.1 c1 d2_ok in
    let c3 =
      put_unless_null-IsClean status "error_message" req.error_message d2 error_message_key.0
        error_message_key.1 c2 d3_ok in
    subst (λ p. parse_payload_object (obj p) ≡ ok p) (ok_injective h8)
      (after_reject (result_object seq id d3 ms) (ok tt) (reject_result seq id status d3 ms c3) (
        check_result seq id status d3 ms c3 (require_non_empty_str-str req.request_id id_ok).1
          (require_non_empty_str-str req.status status_ok).1
          (require-true (contains valid_statuses status) malformed valid)
          (require_uint64-int req.prev_seq seq_ok)))

module _ {Bytes : Type 0} (dumps : Fields → Bytes) (loads : Bytes → Result Json) where
  -- If `encode_send_result` accepts a result, and `json.loads` gives back the object that it passes
  -- to `json.dumps`, then `decode_payload` accepts the bytes and gives back that object.
  pub decode_payload-encode_send_result :
      (req : SendResultInput) (payload : Fields)
      → send_result_payload req ≡ ok payload
      → loads (dumps payload) ≡ ok (obj payload)
      → (encode_send_result dumps req >>= decode_payload loads) ≡ ok payload
  unfolding encode_send_result decode_payload
  decode_payload-encode_send_result req payload h round =
      rw (h, decode_payload, round) (send_result_payload-decoded req h)

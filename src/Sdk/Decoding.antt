-- ===== src/Sdk/Decoding.antt =====
-- What `decode_payload` makes of the bytes of `encode_send_request` and `encode_send_result`.
use openevent_modules_im.Prelude.{
  ℕ, ◌≡◌, refl, String, false, Option, none, some, ◌==◌, string_eq, nat_eq, arith, Result, ok,
  raise, ◌>>=◌, ◌>>◌, >>=-eq-ok, ok_injective, subst, ap, sym, ◌∙◌,
}
use openevent_modules_im.Json.{
  pos, negsuc, Json, null, bool, int, float, str, arr, obj, Fields, end, field, has, get,
  get_default, put, find,
}
use openevent_modules_im.Sdk.Model.{SendRequestInput}
use openevent_modules_im.Sdk.Normalizer.{
  require_uint64, require_timestamp_ms, require_non_empty_str, require_object,
  reject_source_principal,
}
use openevent_modules_im.Sdk.Principals.{
  NamesNoPrincipal, Decides, reject_then, reject_source_principal-Decides,
}
use openevent_modules_im.Sdk.Codec.{
  uint64_value, when, ignore, require_kind, check_kind, check_envelope, parse_payload_object,
  put_unless_null, send_request_payload, encode_send_request, decode_payload,
}

-- The checked values of a send.request.
abbrev request_object : String → String → Fields → ℕ → Option ℕ → Fields
request_object request_id msg_type content event_ms prev_seq =
    let body : Option ℕ → Fields =
      λ o. elim o [ none ↦ end | some n ↦ field "prev_seq" (int (pos n)) end ] in
    field "kind" (str "send.request") (
      field "request_id" (str request_id) (
        field "data" (obj (field "msg_type" (str msg_type) (field "content" (obj content) end)))
          (field "timestamps" (obj (field "event_ms" (int (pos event_ms)) end)) (body prev_seq))))

pub require_non_empty_str-str :
    (v : Json) {s : String} → require_non_empty_str v ≡ ok s → (v ≡ str s) × ((s == "") ≡ false)
unfolding require_non_empty_str
require_non_empty_str-str (str t) h = (ground arith, ground arith)
require_non_empty_str-str null h = absurd (ground arith)
require_non_empty_str-str (bool b) h = absurd (ground arith)
require_non_empty_str-str (int n) h = absurd (ground arith)
require_non_empty_str-str (float m n) h = absurd (ground arith)
require_non_empty_str-str (arr xs) h = absurd (ground arith)
require_non_empty_str-str (obj f) h = absurd (ground arith)

pub require_uint64-int :
    (v : Json) {n : ℕ} → require_uint64 v false ≡ ok n → require_uint64 (int (pos n)) false ≡ ok n
unfolding require_uint64
require_uint64-int (int (pos m)) h = ground arith
require_uint64-int (int (negsuc m)) h = absurd (ground arith)
require_uint64-int null h = absurd (ground arith)
require_uint64-int (bool b) h = absurd (ground arith)
require_uint64-int (str s) h = absurd (ground arith)
require_uint64-int (float m n) h = absurd (ground arith)
require_uint64-int (arr xs) h = absurd (ground arith)
require_uint64-int (obj f) h = absurd (ground arith)

pub after_reject :
    (payload : Fields) (clean : Result (Unit {0}))
    → reject_source_principal (obj payload) ≡ clean
    → check_envelope payload ≡ ok payload
    → parse_payload_object (obj payload) ≡ (clean >> ok payload)
unfolding parse_payload_object require_object
after_reject payload clean h k = rw (h, k) refl

>>-end : (m : Result (Unit {0})) → ((m >> ok (tt {0})) >> ok (tt {0})) ≡ m
>>-end (ok x) = refl
>>-end (raise e) = refl

module _ (request_id msg_type : String) (content : Fields) (event_ms : ℕ)
    (prev_seq : Option ℕ) where
  abbrev object_built : Fields
  object_built = request_object request_id msg_type content event_ms prev_seq

  reject_request :
      reject_source_principal (obj object_built) ≡ reject_source_principal (obj content)
  unfolding reject_source_principal has find string_eq
  reject_request = only_content prev_seq
    where
      only_content :
          (o : Option ℕ)
          → reject_source_principal (obj (request_object request_id msg_type content event_ms o))
            ≡ reject_source_principal (obj content)
      only_content none = >>-end (reject_source_principal (obj content))
      only_content (some n) = >>-end (reject_source_principal (obj content))

  check_request :
      (request_id == "") ≡ false
      → (msg_type == "") ≡ false
      → ((n : ℕ) → prev_seq ≡ some n → require_uint64 (int (pos n)) false ≡ ok n)
      → check_envelope object_built ≡ ok object_built
  unfolding check_envelope require_object require_kind check_kind when ignore find get has
      get_default require_non_empty_str require_timestamp_ms string_eq
  check_request h k u = linked prev_seq u
    where
      linked :
          (o : Option ℕ)
          → ((n : ℕ) → o ≡ some n → require_uint64 (int (pos n)) false ≡ ok n)
          → check_envelope (request_object request_id msg_type content event_ms o)
            ≡ ok (request_object request_id msg_type content event_ms o)
      linked none u = rw (h, k) refl
      linked (some n) u = rw (h, k, u n refl) refl

-- What the encoder puts into the object of a send.request that it accepts.
record IsRequestObject (req : SendRequestInput) (payload : Fields) : Type 0 where
  request_id : String
  msg_type : String
  content : Fields
  event_ms : ℕ
  prev_seq : Option ℕ
  content_given : req.content ≡ obj content
  has_id : (request_id == "") ≡ false
  has_type : (msg_type == "") ≡ false
  in_range : (n : ℕ) → prev_seq ≡ some n → require_uint64 (int (pos n)) false ≡ ok n
  built : request_object request_id msg_type content event_ms prev_seq ≡ payload

require_object-obj : (v : Json) {f : Fields} → require_object v ≡ ok f → v ≡ obj f
unfolding require_object
require_object-obj (obj f) h = ground arith
require_object-obj null h = absurd (ground arith)
require_object-obj (bool b) h = absurd (ground arith)
require_object-obj (int n) h = absurd (ground arith)
require_object-obj (float m n) h = absurd (ground arith)
require_object-obj (arr xs) h = absurd (ground arith)
require_object-obj (str s) h = absurd (ground arith)

given_prev_seq :
    (v : Json) (request_id msg_type : String) (content : Fields) (event_ms : ℕ) {payload : Fields}
    (m : Result ℕ)
    → require_uint64 v false ≡ m
    → ((m >>= λ n. ok (int (pos n))) >>= λ w.
        ok (put "prev_seq" w (request_object request_id msg_type content event_ms none)))
      ≡ ok payload
    → (o : Option ℕ) × (request_object request_id msg_type content event_ms o ≡ payload)
      × ((n : ℕ) → o ≡ some n → require_uint64 (int (pos n)) false ≡ ok n)
unfolding put string_eq
given_prev_seq v request_id msg_type content event_ms (ok n) checked h =
    (some n, ok_injective h, λ k e. require_uint64-int v (ground arith))
given_prev_seq v request_id msg_type content event_ms (raise e) checked h = absurd (ground arith)

-- The last field of a send.request.
prev_seq_field :
    (v : Json) (request_id msg_type : String) (content : Fields) (event_ms : ℕ) {payload : Fields}
    → put_unless_null "prev_seq" v uint64_value
        (request_object request_id msg_type content event_ms none)
      ≡ ok payload
    → (o : Option ℕ) × (request_object request_id msg_type content event_ms o ≡ payload)
      × ((n : ℕ) → o ≡ some n → require_uint64 (int (pos n)) false ≡ ok n)
unfolding put_unless_null put string_eq
prev_seq_field null request_id msg_type content event_ms h =
    (none, ground arith, λ n e. absurd (ground arith))
prev_seq_field (int n) request_id msg_type content event_ms h =
    given_prev_seq (int n) request_id msg_type content event_ms _ refl h
prev_seq_field (bool b) request_id msg_type content event_ms h =
    given_prev_seq (bool b) request_id msg_type content event_ms _ refl h
prev_seq_field (str s) request_id msg_type content event_ms h =
    given_prev_seq (str s) request_id msg_type content event_ms _ refl h
prev_seq_field (float m n) request_id msg_type content event_ms h =
    given_prev_seq (float m n) request_id msg_type content event_ms _ refl h
prev_seq_field (arr xs) request_id msg_type content event_ms h =
    given_prev_seq (arr xs) request_id msg_type content event_ms _ refl h
prev_seq_field (obj f) request_id msg_type content event_ms h =
    given_prev_seq (obj f) request_id msg_type content event_ms _ refl h

send_request_payload-IsRequestObject :
    (req : SendRequestInput) {payload : Fields}
    → send_request_payload req ≡ ok payload
    → IsRequestObject req payload
unfolding send_request_payload
send_request_payload-IsRequestObject req h =
    let (id, id_ok, h1) = >>=-eq-ok (require_non_empty_str req.request_id) _ h in
    let (type_, type_ok, h2) = >>=-eq-ok (require_non_empty_str req.msg_type) _ h1 in
    let (content, content_ok, h3) = >>=-eq-ok (require_object req.content) _ h2 in
    let (ms, ms_ok, h4) = >>=-eq-ok (require_timestamp_ms req.event_ms) _ h3 in
    let (o, built, in_range) = prev_seq_field req.prev_seq id type_ content ms h4 in
    record {
      request_id = id;
      msg_type = type_;
      content = content;
      event_ms = ms;
      prev_seq = o;
      content_given = require_object-obj req.content content_ok;
      has_id = (require_non_empty_str-str req.request_id id_ok).1;
      has_type = (require_non_empty_str-str req.msg_type type_ok).1;
      in_range = in_range;
      built = built;
    }

module _ {Bytes : Type 0} (dumps : Fields → Bytes) (loads : Bytes → Result Json) where
  rejected_lem :
      (req : SendRequestInput) (payload : Fields)
      → send_request_payload req ≡ ok payload
      → loads (dumps payload) ≡ ok (obj payload)
      → (encode_send_request dumps req >>= decode_payload loads)
        ≡ (reject_source_principal req.content >> ok payload)
  unfolding encode_send_request decode_payload
  rejected_lem req payload h round =
      let r = send_request_payload-IsRequestObject req h in
      let decoded : parse_payload_object (obj payload)
          ≡ (reject_source_principal req.content >> ok payload) =
        subst (λ p. parse_payload_object (obj p) ≡ (reject_source_principal req.content >> ok p))
          r.built
          (after_reject (request_object r.request_id r.msg_type r.content r.event_ms r.prev_seq) _
            (reject_request r.request_id r.msg_type r.content r.event_ms r.prev_seq
              ∙ ap reject_source_principal (sym r.content_given))
            (check_request r.request_id r.msg_type r.content r.event_ms r.prev_seq r.has_id
              r.has_type r.in_range)) in
      rw (h, decode_payload, round) decoded

  -- If `encode_send_request` accepts a request, and `json.loads` gives back the object that it
  -- passes to `json.dumps`, then `decode_payload` gives back that object if no object in the content,
  -- at any depth, has the key `source_principal`, and raises MalformedPayloadError if one has.
  -- Python's stack is taken to be deep enough for the content.
  pub decode_payload-encode_send_request :
      (req : SendRequestInput) (payload : Fields)
      → send_request_payload req ≡ ok payload
      → loads (dumps payload) ≡ ok (obj payload)
      → Decides
          (NamesNoPrincipal req.content)
          payload
          (encode_send_request dumps req >>= decode_payload loads)
  decode_payload-encode_send_request req payload h round =
      subst (Decides (NamesNoPrincipal req.content) payload)
        (sym (rejected_lem req payload h round))
        (reject_then payload (reject_source_principal-Decides req.content))

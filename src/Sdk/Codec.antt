-- ===== src/Sdk/Codec.antt =====
-- im_sdk/codec.py. `json.dumps` and `json.loads`, with the UTF-8 step, are the parameters `dumps`
-- and `loads`; `loads` raises what the step or `json.loads` raises: a decoding error, or another, such
-- as the ValueError for an integer with too many digits or RecursionError.
use openevent_modules_im.Prelude.{
  String, Bool, true, false, ◌||◌, not, ◌==◌, contains, if◌then◌else◌, string_eq, nat_eq, List, [],
  ◌∷◌, Result, ok, raise, error, caused_by, invalid_kind, malformed_payload, is_decode_error, ◌>>=◌,
  ◌>>◌, require,
}
use openevent_modules_im.Json.{
  pos, negsuc, Json, null, bool, int, float, str, arr, obj, nil, cons, Fields, end, field, has, get,
  put, update,
}
use openevent_modules_im.Sdk.Model.{SendRequestInput, SendResultInput, SyncRecordInput}
use openevent_modules_im.Sdk.Normalizer.{
  malformed, require_uint64, require_timestamp_ms, require_non_empty_str, require_object,
  reject_source_principal,
}

abbrev pub valid_kinds : List String
valid_kinds = "sync.record" ∷ "send.request" ∷ "send.result" ∷ []

abbrev pub valid_statuses : List String
valid_statuses = "SUCCESS" ∷ "FAILED" ∷ []

-- `when b: m`
unfoldable pub when : Bool → Result (Unit {0}) → Result (Unit {0})
when true m = m
when false m = ok tt

unfoldable pub ignore {ℓ} : {A : Type ℓ} → Result A → Result (Unit {0})
ignore m = do _ ← m; ok tt

unfoldable pub require_kind : Json → Result String
require_kind (str kind) = if contains valid_kinds kind then ok kind else raise (error invalid_kind)
require_kind value = raise malformed

-- The checks of `parse_payload_object` that depend on the kind, in the order of the source.
unfoldable pub check_kind : String → Fields → Fields → Fields → Result (Unit {0})
unfolding when ignore
check_kind kind payload data_fields timestamps = do
  when (kind == "sync.record") (do
    _ ← require_timestamp_ms (get "ingested_ms" timestamps)
    _ ← require_non_empty_str (get "provider_message_id" data_fields)
    _ ← require_non_empty_str (get "msg_type" data_fields)
    ignore (require_object (get "content_raw" data_fields)))
  when (has "prev_seq" payload) (ignore (require_uint64 (get "prev_seq" payload) false))
  when (kind == "send.request" || kind == "send.result")
      (ignore (require_non_empty_str (get "request_id" payload)))
  when (kind == "send.request") (do
    _ ← require_non_empty_str (get "msg_type" data_fields)
    ignore (require_object (get "content" data_fields)))
  when (kind == "send.result") (do
    _ ← require_uint64 (get "prev_seq" payload) false
    status ← require_non_empty_str (get "status" data_fields)
    require (contains valid_statuses status) malformed)

-- `parse_payload_object` from the kind on.
unfoldable pub check_envelope : Fields → Result Fields
unfolding require_kind check_kind
check_envelope payload = do
  kind ← require_kind (get "kind" payload)
  data_fields ← require_object (get "data" payload)
  timestamps ← require_object (get "timestamps" payload)
  _ ← require_timestamp_ms (get "event_ms" timestamps)
  check_kind kind payload data_fields timestamps
  ok payload

unfoldable pub parse_payload_object : Json → Result Fields
parse_payload_object value = do
  payload ← require_object value
  reject_source_principal (obj payload)
  check_envelope payload

-- `if value is not None: fields[k] = convert(value)`
unfoldable pub put_unless_null : String → Json → (Json → Result Json) → Fields → Result Fields
put_unless_null k null convert fields = ok fields
put_unless_null k value convert fields = do v ← convert value; ok (put k v fields)

abbrev pub uint64_value : Json → Result Json
uint64_value v = do n ← require_uint64 v false; ok (int (pos n))

abbrev pub str_value : Json → Result Json
str_value v = do s ← require_non_empty_str v; ok (str s)

abbrev pub same_value : Json → Result Json
same_value v = ok v

-- Python's `bool(value)`.
unfoldable pub truthy : Json → Bool
truthy null = false
truthy (bool b) = b
truthy (int (pos n)) = not (n == 0)
truthy (int (negsuc n)) = true
truthy (float (pos n) k) = not (n == 0)
truthy (float (negsuc n) k) = true
truthy (str s) = not (s == "")
truthy (arr nil) = false
truthy (arr (cons x xs)) = true
truthy (obj end) = false
truthy (obj (field k v f)) = true

abbrev pub bool_value : Json → Result Json
bool_value v = ok (bool (truthy v))

-- The objects that the encoders build. Each encoder returns the bytes of one.
unfoldable pub send_request_payload : SendRequestInput → Result Fields
unfolding put_unless_null truthy
send_request_payload req = do
  request_id ← require_non_empty_str req.request_id
  msg_type ← require_non_empty_str req.msg_type
  content ← require_object req.content
  event_ms ← require_timestamp_ms req.event_ms
  put_unless_null "prev_seq" req.prev_seq uint64_value (
      field "kind" (str "send.request") (
        field "request_id" (str request_id) (
          field "data" (obj (field "msg_type" (str msg_type) (field "content" (obj content) end)))
            (field "timestamps" (obj (field "event_ms" (int (pos event_ms)) end)) end))))

unfoldable pub send_result_payload : SendResultInput → Result Fields
unfolding put_unless_null truthy
send_result_payload req = do
  request_id ← require_non_empty_str req.request_id
  prev_seq ← require_uint64 req.prev_seq false
  status ← require_non_empty_str req.status
  require (contains valid_statuses status) malformed
  event_ms ← require_timestamp_ms req.event_ms
  data1 ←
      put_unless_null "provider_message_id" req.provider_message_id str_value
        (field "status" (str status) end)
  data2 ← put_unless_null "error_code" req.error_code str_value data1
  data3 ← put_unless_null "error_message" req.error_message str_value data2
  ok (
      field "kind" (str "send.result") (
        field "prev_seq" (int (pos prev_seq)) (
          field "request_id" (str request_id) (
            field "data" (obj data3)
              (field "timestamps" (obj (field "event_ms" (int (pos event_ms)) end)) end)))))

unfoldable pub sync_record_payload : SyncRecordInput → Result Fields
unfolding put_unless_null truthy
sync_record_payload req = do
  provider_message_id ← require_non_empty_str req.provider_message_id
  msg_type ← require_non_empty_str req.msg_type
  content_raw ← require_object req.content_raw
  event_ms ← require_timestamp_ms req.event_ms
  ingested_ms ← require_timestamp_ms req.ingested_ms
  data1 ← put_unless_null "text" req.text same_value (
      update req.extra_data (
        field "provider_message_id" (str provider_message_id)
          (field "msg_type" (str msg_type) (field "content_raw" (obj content_raw) end))))
  data2 ← put_unless_null "is_init" req.is_init bool_value data1
  data3 ← put_unless_null "content_omitted" req.content_omitted bool_value data2
  data4 ← put_unless_null "omit_reason" req.omit_reason str_value data3
  data5 ← put_unless_null "text_preview" req.text_preview same_value data4
  put_unless_null "prev_seq" req.prev_seq uint64_value (
      field "kind" (str "sync.record") (
        field "data" (obj data5) (
          field "timestamps"
            (obj (
              field "event_ms" (int (pos event_ms))
                (field "ingested_ms" (int (pos ingested_ms)) end)))
            end)))

module _ {Bytes : Type 0} (dumps : Fields → Bytes) where
  unfoldable pub encode_send_request : SendRequestInput → Result Bytes
  encode_send_request req = do payload ← send_request_payload req; ok (dumps payload)

  unfoldable pub encode_send_result : SendResultInput → Result Bytes
  encode_send_result req = do payload ← send_result_payload req; ok (dumps payload)

  unfoldable pub encode_sync_record : SyncRecordInput → Result Bytes
  encode_sync_record req = do payload ← sync_record_payload req; ok (dumps payload)

module _ {Bytes : Type 0} (loads : Bytes → Result Json) where
  unfoldable pub decode_payload : Bytes → Result Fields
  decode_payload payload = elim (loads payload) [
    | ok value ↦ parse_payload_object value
    | raise e ↦ raise (if is_decode_error e then caused_by malformed_payload e else e)
  ]

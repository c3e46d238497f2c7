-- ===== src/Tests/Codec.antt =====
-- A send.request whose content names a source_principal, and a send.result; the bytes are objects.
use openevent_modules_im.Prelude.{◌≡◌, refl, Result, [], ◌∷◌, ok, ◌>>=◌, string_eq}
use openevent_modules_im.Json.{Json, null, str, int, pos, obj, Fields, end, field, put}
use openevent_modules_im.Sdk.Model.{SendRequestInput, SendResultInput}
use openevent_modules_im.Sdk.Normalizer.{
  require_uint64, require_timestamp_ms, require_non_empty_str, require_object,
}
use openevent_modules_im.Sdk.Codec.{
  put_unless_null, send_request_payload, send_result_payload, encode_send_request,
  encode_send_result, decode_payload,
}
use openevent_modules_im.OpenEvent.{Message}
use openevent_modules_im.Prelude.Ensuring.{Ensured}
use openevent_modules_im.Client.Parse.{parse_message}
use openevent_modules_im.Client.Parsed.{IsRefusal, IsParsed, parse_message-IsParsed}
use openevent_modules_im.Sdk.Principals.{NamesNoPrincipal, Decides}
use openevent_modules_im.Sdk.Decoding.{decode_payload-encode_send_request}
use openevent_modules_im.Sdk.ResultDecoding.{decode_payload-encode_send_result}

abbrev dumps : Fields → Fields
dumps f = f

abbrev loads : Fields → Result Json
loads f = ok (obj f)

abbrev content : Fields
content = field "source_principal" (int (pos 3)) end

abbrev request : SendRequestInput
request = record {
  request_id = str "a";
  msg_type = str "text";
  content = obj content;
  event_ms = int (pos 1000);
  prev_seq = int (pos 4);
}

abbrev request_payload : Fields
request_payload = field "kind" (str "send.request") (
    field "request_id" (str "a") (
      field "data" (obj (field "msg_type" (str "text") (field "content" (obj content) end))) (
        field "timestamps" (obj (field "event_ms" (int (pos 1000)) end))
          (field "prev_seq" (int (pos 4)) end))))

request_encoded : send_request_payload request ≡ ok request_payload
unfolding send_request_payload require_non_empty_str require_object require_timestamp_ms
    require_uint64 put_unless_null put string_eq
request_encoded = refl

decode_payload-encode_send_request_example :
    Decides
      (NamesNoPrincipal (obj content))
      request_payload
      (encode_send_request dumps request >>= decode_payload loads)
decode_payload-encode_send_request_example =
    decode_payload-encode_send_request dumps loads request request_payload request_encoded refl

abbrev result : SendResultInput
result = record {
  request_id = str "a";
  prev_seq = int (pos 5);
  status = str "SUCCESS";
  event_ms = int (pos 1000);
  provider_message_id = str "om_1";
  error_code = null;
  error_message = null;
}

abbrev result_payload : Fields
result_payload = field "kind" (str "send.result") (
    field "prev_seq" (int (pos 5)) (
      field "request_id" (str "a") (
        field "data"
          (obj (field "status" (str "SUCCESS") (field "provider_message_id" (str "om_1") end)))
          (field "timestamps" (obj (field "event_ms" (int (pos 1000)) end)) end))))

result_encoded : send_result_payload result ≡ ok result_payload
unfolding send_result_payload require_non_empty_str require_object require_timestamp_ms
    require_uint64 put_unless_null put string_eq
result_encoded = refl

decode_payload-encode_send_result_example :
    (encode_send_result dumps result >>= decode_payload loads) ≡ ok result_payload
decode_payload-encode_send_result_example =
    decode_payload-encode_send_result dumps loads result result_payload result_encoded refl

abbrev received : Message Fields
received = record {
  seq = 9;
  channel_id = 7;
  principal = 20;
  recipients = 30 ∷ [];
  payload = result_payload;
}

parse_message-IsParsed_example :
    Ensured
      (IsRefusal loads received.payload)
      (IsParsed loads received)
      (parse_message loads received)
parse_message-IsParsed_example = parse_message-IsParsed loads received

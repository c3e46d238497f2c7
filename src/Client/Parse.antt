-- ===== src/Client/Parse.antt =====
-- `parse_payload` and `parse_message` of `ImProtocolClient`.
use openevent_modules_im.Prelude.{
  ℕ, true, false, String, Option, none, some, map, Result, ok, raise, error, untyped, ◌>>=◌,
  if◌then◌else◌,
}
use openevent_modules_im.Json.{Json, int, pos, str, obj, Fields, has, get}
use openevent_modules_im.OpenEvent.{Message}
use openevent_modules_im.Sdk.Model.{ParsedMessage}
use openevent_modules_im.Sdk.Normalizer.{normalize_recipients}
use openevent_modules_im.Sdk.Codec.{decode_payload}
use openevent_modules_im.Client.Publish.{uint64, number}

-- A value where the source relies on what `decode_payload` has checked.
unfoldable pub checked_object : Json → Result Fields
checked_object (obj f) = ok f
checked_object v = raise (error untyped)

unfoldable pub checked_str : Json → Result String
checked_str (str s) = ok s
checked_str v = raise (error untyped)

unfoldable pub checked_number : Json → Result ℕ
checked_number (int (pos n)) = ok n
checked_number v = raise (error untyped)

-- `payload.get("prev_seq")`
unfoldable pub checked_prev_seq : Fields → Result (Option ℕ)
checked_prev_seq payload =
    if has "prev_seq" payload
    then (do n ← checked_number (get "prev_seq" payload); ok (some n))
    else ok none

module _ {Bytes : Type 0} (loads : Bytes → Result Json) where
  unfoldable pub parse_payload : Bytes → Result Fields
  parse_payload payload = decode_payload loads payload

  unfoldable pub parse_message : Message Bytes → Result ParsedMessage
  parse_message message = do
    payload ← parse_payload message.payload
    timestamps ← checked_object (get "timestamps" payload)
    seq ← uint64 message.seq false
    channel_id ← uint64 message.channel_id true
    principal ← uint64 message.principal true
    recipients ← normalize_recipients (some (map number message.recipients)) false
    kind ← checked_str (get "kind" payload)
    data_fields ← checked_object (get "data" payload)
    event_ms ← checked_number (get "event_ms" timestamps)
    prev_seq ← checked_prev_seq payload
    ok (record {
      seq = seq;
      channel_id = channel_id;
      principal = principal;
      recipients = recipients;
      kind = kind;
      payload = payload;
      data_fields = data_fields;
      event_ms = event_ms;
      ingested_ms = get "ingested_ms" timestamps;
      request_id = get "request_id" payload;
      prev_seq = prev_seq;
    })

-- ===== src/Client/Parsed.antt =====
-- What `parse_message` raises: the model's `untyped`, for a value that has not the type that the source
-- relies on, is not among it.
use openevent_modules_im.Prelude.{
  ℕ, ◌≡◌, refl, ap, ◌∙◌, String, Bool, true, false, string_eq, nat_eq, some, List, [], ◌∷◌, map,
  arith, if_ind, if◌then◌else◌, Result, ok, raise, Error, caused_by, malformed_payload,
  is_decode_error,
}
use openevent_modules_im.Prelude.Ensuring.{Ensured, accepted, refused, ensure, either}
use openevent_modules_im.Json.{Json, int, pos, str, obj, Fields, has, get}
use openevent_modules_im.OpenEvent.{Message}
use openevent_modules_im.Sdk.Model.{ParsedMessage}
use openevent_modules_im.Sdk.Normalizer.{require_all, normalize_recipients}
use openevent_modules_im.Sdk.Codec.{parse_payload_object, decode_payload}
use openevent_modules_im.Client.Publish.{uint64, number}
use openevent_modules_im.Client.Parse.{
  checked_object, checked_str, checked_number, checked_prev_seq, parse_payload, parse_message,
}
use openevent_modules_im.Sdk.Checking.{
  IsInvalid, Checks, IsTyped, HasNumber, require_uint64-Checks, parse_payload_object-Checks,
}

require_all-Checks : (l : List ℕ) → Checks (λ ns. ns ≡ l) (require_all (map number l))
unfolding require_all
require_all-Checks [] = accepted refl
require_all-Checks (n ∷ l) =
    ensure (require_uint64-Checks (number n) false)
      λ m same. ensure (require_all-Checks l) λ ns rest. accepted (grind arith)

normalize_recipients-Checks :
    (l : List ℕ) → Checks (λ ns. ns ≡ l) (normalize_recipients (some (map number l)) false)
unfolding normalize_recipients
normalize_recipients-Checks l = ensure (require_all-Checks l) λ ns same. accepted same

uint64-Checks : (n : ℕ) (positive : Bool) → Checks (λ m. m ≡ n) (uint64 n positive)
unfolding uint64
uint64-Checks n positive = ensure_same (require_uint64-Checks (number n) positive)
  where
    ensure_same : {r : Result ℕ} → Checks (λ m. number n ≡ int (pos m)) r → Checks (λ m. m ≡ n) r
    ensure_same (accepted h) = accepted (cc)
    ensure_same (refused h) = refused h

checked_object-Checks : {v : Json} {f : Fields} → v ≡ obj f → Checks (λ g. g ≡ f) (checked_object v)
unfolding checked_object
checked_object-Checks same = rw same (accepted refl)

checked_str-Checks : {v : Json} {s : String} → v ≡ str s → Checks (λ t. t ≡ s) (checked_str v)
unfolding checked_str
checked_str-Checks same = rw same (accepted refl)

checked_number-Checks :
    {v : Json} {n : ℕ} → v ≡ int (pos n) → Checks (λ m. m ≡ n) (checked_number v)
unfolding checked_number
checked_number-Checks same = rw same (accepted refl)

checked_prev_seq-Checks :
    (payload : Fields) → HasNumber payload → Checks (λ o. Unit) (checked_prev_seq payload)
unfolding checked_prev_seq
checked_prev_seq-Checks payload h =
    either (has "prev_seq" payload)
      (λ there. ensure (checked_number-Checks (h there).1) λ n same. accepted tt)
      (λ missing. accepted tt)

with_equation :
    {R : Error → Type 0} {A : Type 0} {P : A → Type 0} {r : Result A}
    → Ensured R P r
    → Ensured R (λ a. P a × (r ≡ ok a)) r
with_equation (accepted h) = accepted (h, refl)
with_equation (refused h) = refused h

module _ {Bytes : Type 0} (loads : Bytes → Result Json) where
  -- What `parse_message` raises for a message with this payload: MalformedPayloadError or
  -- InvalidKindError, or, where `json.loads` raises, MalformedPayloadError from a decoding error and any
  -- other error as it is.
  pub data IsRefusal (payload : Bytes) : Error → Type 0 where
    invalid : {e : Error} → IsInvalid e → IsRefusal payload e
    undecodable :
        {e : Error}
        → loads payload ≡ raise e
        → is_decode_error e ≡ true
        → IsRefusal payload (caused_by malformed_payload e)
    unread : {e : Error} → loads payload ≡ raise e → is_decode_error e ≡ false → IsRefusal payload e

  widen :
      {A : Type 0} {P : A → Type 0} {r : Result A} (payload : Bytes)
      → Checks P r
      → Ensured (IsRefusal payload) P r
  widen payload (accepted h) = accepted h
  widen payload (refused h) = refused (invalid h)

  parse_payload-Checks :
      (payload : Bytes) → Ensured (IsRefusal payload) (λ f. IsTyped f) (parse_payload loads payload)
  unfolding parse_payload decode_payload
  parse_payload-Checks payload = by_value (loads payload) refl
    where
      by_value :
          (r : Result Json)
          → loads payload ≡ r
          → Ensured
              (IsRefusal payload)
              (λ f. IsTyped f)
              (elim r as (λ x. Result Fields) [
                | ok v ↦ parse_payload_object v
                | raise e ↦ raise (if is_decode_error e then caused_by malformed_payload e else e)
              ])
      by_value (ok v) same = widen payload (parse_payload_object-Checks v)
      by_value (raise e) same =
          if_ind (λ (x : Error). Ensured (IsRefusal payload) (λ (f : Fields). IsTyped f) (raise x))
            (is_decode_error e) _ _ (λ decoding. refused (undecodable same decoding))
            (λ other. refused (unread same other))

  -- The numbers of the message, with what stands in its payload.
  pub record IsParsed (message : Message Bytes) (parsed : ParsedMessage) : Type 0 where
    pub seq : parsed.seq ≡ message.seq
    pub channel_id : parsed.channel_id ≡ message.channel_id
    pub principal : parsed.principal ≡ message.principal
    pub recipients : parsed.recipients ≡ message.recipients
    pub payload : parse_payload loads message.payload ≡ ok parsed.payload
    pub kind : get "kind" parsed.payload ≡ str parsed.kind
    pub data_fields : get "data" parsed.payload ≡ obj parsed.data_fields
    pub timestamps : Fields
    pub has_timestamps : get "timestamps" parsed.payload ≡ obj timestamps
    pub event_ms : get "event_ms" timestamps ≡ int (pos parsed.event_ms)

  -- A message that `parse_message` accepts comes with the numbers of the message, its recipients in their
  -- order, and the object, the kind, the data and the event time that `parse_payload` finds in its
  -- payload. For another message it raises MalformedPayloadError or InvalidKindError, or the error of
  -- `json.loads` where that is no decoding error, and nothing else: what it reads from a payload that
  -- `parse_payload` accepts is there, and has the type that the source relies on.
  -- Python's stack is taken to be deep enough for the payload.
  pub parse_message-IsParsed :
      (message : Message Bytes)
      → Ensured (IsRefusal message.payload) (IsParsed message) (parse_message loads message)
  unfolding parse_message
  parse_message-IsParsed message =
      ensure (with_equation (parse_payload-Checks message.payload))
        λ payload (typed, accepted_payload). widen message.payload (
          ensure (checked_object-Checks typed.has_timestamps) λ timestamps timestamps_same.
            ensure (uint64-Checks message.seq false) λ seq seq_same.
              ensure (uint64-Checks message.channel_id true) λ channel_id channel_same.
                ensure (uint64-Checks message.principal true) λ principal principal_same.
                  ensure (normalize_recipients-Checks message.recipients)
                    λ recipients recipients_same.
                      ensure (checked_str-Checks typed.has_kind) λ kind kind_same.
                        ensure (checked_object-Checks typed.has_data) λ data_fields data_same.
                          ensure
                            (checked_number-Checks
                              (ap (get "event_ms") timestamps_same ∙ typed.has_event_ms))
                            λ event_ms event_same.
                              ensure (checked_prev_seq-Checks payload typed.prev_seq) λ prev_seq t.
                                accepted (record {
                                  seq = seq_same;
                                  channel_id = channel_same;
                                  principal = principal_same;
                                  recipients = recipients_same;
                                  payload = accepted_payload;
                                  kind = rw kind_same typed.has_kind;
                                  data_fields = rw data_same typed.has_data;
                                  timestamps = typed.timestamps;
                                  has_timestamps = typed.has_timestamps;
                                  event_ms = rw event_same typed.has_event_ms;
                                }))

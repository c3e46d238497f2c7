-- ===== src/Sdk/Model.antt =====
-- im_sdk/model.py. A dataclass does not enforce its annotations, and the encoders check what
-- they are given, so a field of an input is any value, with `null` for None.
use openevent_modules_im.Prelude.{ℕ, Option, String, List}
use openevent_modules_im.Json.{Json, Fields}

pub record SendRequestInput : Type 0 where
  pub request_id : Json
  pub msg_type : Json
  pub content : Json
  pub event_ms : Json
  pub prev_seq : Json

pub record SendResultInput : Type 0 where
  pub request_id : Json
  pub prev_seq : Json
  pub status : Json
  pub event_ms : Json
  pub provider_message_id : Json
  pub error_code : Json
  pub error_message : Json

pub record SyncRecordInput : Type 0 where
  pub provider_message_id : Json
  pub msg_type : Json
  pub content_raw : Json
  pub event_ms : Json
  pub ingested_ms : Json
  pub prev_seq : Json
  pub text : Json
  pub is_init : Json
  pub content_omitted : Json
  pub omit_reason : Json
  pub text_preview : Json
  pub extra_data : Fields

-- What `parse_message` returns. It has checked `prev_seq` wherever the payload has one, and
-- passes `request_id` and `ingested_ms` on as they stand in the payload.
pub record ParsedMessage : Type 0 where
  pub seq : ℕ
  pub channel_id : ℕ
  pub principal : ℕ
  pub recipients : List ℕ
  pub kind : String
  pub payload : Fields
  pub data_fields : Fields
  pub event_ms : ℕ
  pub ingested_ms : Json
  pub request_id : Json
  pub prev_seq : Option ℕ

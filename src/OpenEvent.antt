-- ===== src/OpenEvent.antt =====
-- The OpenEvent client that im_sdk/client.py and im_p2p_syncer/syncer.py are given, as actions on
-- the state `W` of everything outside the worker. `Bytes` is Python's bytes. The numbers of a
-- protobuf message are uint64, and are not negative.
use openevent_modules_im.Prelude.{ℕ, String, Bool, Option, List}
use openevent_modules_im.Prelude.Actions.{Action}

pub record Message (Bytes : Type 0) : Type 0 where
  pub seq : ℕ
  pub channel_id : ℕ
  pub principal : ℕ
  pub recipients : List ℕ
  pub payload : Bytes

pub record FetchResponse (Bytes : Type 0) : Type 0 where
  pub messages : List (Message Bytes)
  pub next_seq : ℕ
  pub last_seq : ℕ

-- A channel; `description` is a text.
pub record Channel : Type 0 where
  pub protocol : String
  pub description : String
  pub visibility : ℕ
  pub members : List ℕ

pub record OpenEventClient (W Bytes : Type 0) : Type 0 where
  -- The sequence number of the response, or `none` for a response without one.
  pub publish_auto_seq :
      (principal : ℕ) (token : String) (channel_id : ℕ) (payload : Bytes) (recipients : List ℕ)
      → Action W (Option ℕ)
  -- The `max_seq` of the response.
  pub get_status : (principal : ℕ) (token : String) → Action W ℕ
  pub fetch :
      (principal : ℕ) (token : String) (from_seq limit : ℕ) (only_my_recipient : Bool)
      (channels : List ℕ)
      → Action W (FetchResponse Bytes)
  pub get_channel : (principal : ℕ) (token : String) (channel_id : ℕ) → Action W Channel

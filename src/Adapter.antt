-- ===== src/Adapter.antt =====
-- The protocol `ProviderAdapter` of im_p2p_syncer/adapters/base.py, with the clock. `W` is the state
-- of everything outside the worker: an adapter's queue and stream, the provider, and time.
use openevent_modules_im.Prelude.{ℕ, String, Option, List, Error}
use openevent_modules_im.Prelude.Actions.{Action}
use openevent_modules_im.Json.{Fields}
use openevent_modules_im.Models.{ProviderEvent, HistoryPage, SendResult}

pub record ProviderAdapter (W : Type 0) : Type 0 where
  pub provider_name : String
  pub start_event_stream : List String → Action W (Unit {0})
  pub stop_event_stream : Action W (Unit {0})
  pub event_stream_error : Action W (Option Error)
  pub event_stream_generation : Action W ℕ
  pub take_event : Action W (Option ProviderEvent)
  pub fetch_history_page :
      (session_id : String) (start_ms end_ms : ℕ) (page_token : Option String)
      → Action W HistoryPage
  pub send_message :
      (session_id sender_external_user_id msg_type : String) (content : Fields)
      (request_id : String)
      → Action W SendResult

-- `int(time.time() * 1000)`
abbrev pub Clock : Type 0 → Type 0
Clock W = Action W ℕ

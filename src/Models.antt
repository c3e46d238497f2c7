-- ===== src/Models.antt =====
-- im_p2p_syncer/models.py. Times are in milliseconds, and no model holds a negative one.
use openevent_modules_im.Prelude.{ℕ, String, Bool, Option, List, Dict}
use openevent_modules_im.Json.{Fields}

pub record WorkerConfig : Type 0 where
  pub principal : ℕ
  pub token : String
  pub shutdown_timeout_ms : ℕ

pub record OpenEventConfig : Type 0 where
  pub target : String

pub record RetryConfig : Type 0 where
  pub publish_max_attempts : ℕ
  pub publish_retry_delay_ms : ℕ
  pub idle_sleep_ms : ℕ

pub record ProviderSyncConfig : Type 0 where
  pub history_retry_delay_ms : ℕ
  pub history_overlap_ms : ℕ
  pub history_lookback_ms : ℕ
  pub page_size : ℕ
  pub event_queue_size : ℕ

pub record ProviderConfig : Type 0 where
  pub name : String
  pub sync : ProviderSyncConfig
  pub credentials : Fields
  pub options : Fields

pub record MappingEntry : Type 0 where
  pub provider : String
  pub identity_type : String
  pub external_user_id : String
  pub principal : ℕ
  pub session_id : String
  pub channel_id : ℕ

pub record SyncerConfig : Type 0 where
  pub version : String
  pub worker : WorkerConfig
  pub openevent : OpenEventConfig
  pub retry : RetryConfig
  pub principal_tokens : Dict ℕ String
  pub providers : Dict String ProviderConfig
  pub mappings : List MappingEntry
  pub logging : Fields

pub record ProviderEvent : Type 0 where
  pub provider : String
  pub session_id : String
  pub provider_message_id : String
  pub sender_external_user_id : String
  pub msg_type : String
  pub content_raw : Fields
  pub event_ms : ℕ
  pub text : Option String
  pub sender_identity_type : String

pub record HistoryPage : Type 0 where
  pub events : List ProviderEvent
  pub next_page_token : Option String

pub record SendResult : Type 0 where
  pub success : Bool
  pub provider_message_id : Option String
  pub error_code : Option String
  pub error_message : Option String

-- ===== src/Processor/Model.antt =====
-- The state of `SingleThreadProcessor`, what its constructor is given, and the status codes it looks
-- for in an exception. Logging is left out.
use openevent_modules_im.Prelude.{
  class_code, ℕ, ◌+◌, String, Bool, true, false, Option, none, some, List, [], ◌∷◌, if◌then◌else◌,
  nat_eq, string_eq, Dict, insert, Result, ok, raise, Error, error, caused_by, StatusCode,
  fatal_syncer, key_error, resource_exhausted, unavailable, deadline_exceeded, ◌>>=◌,
}
use openevent_modules_im.Prelude.Actions.{Action}
use openevent_modules_im.Models.{ProviderEvent, ProviderSyncConfig, RetryConfig}
use openevent_modules_im.Adapter.{ProviderAdapter, Clock}
use openevent_modules_im.Sdk.Model.{SendResultInput, SyncRecordInput}
use openevent_modules_im.Mapping.Index.{
  P2PMappingIndex, channel_ids, provider_session, provider_config_for_channel,
}
use openevent_modules_im.Puller.Model.{PullerState}
use openevent_modules_im.State.Model.{RuntimeState}

-- The two operations of `ImProtocolClient` that the processor calls; each returns the sequence
-- number.
pub record ImClient (W : Type 0) : Type 0 where
  pub publish_send_result :
      (principal : ℕ) (token : String) (channel_id : ℕ) (recipients : List ℕ)
      (req : SendResultInput)
      → Action W ℕ
  pub publish_sync_record :
      (principal : ℕ) (token : String) (channel_id : ℕ) (recipients : List ℕ)
      (req : SyncRecordInput)
      → Action W ℕ

-- `threading.Event`; `wait` takes milliseconds here.
pub record StopEvent (W : Type 0) : Type 0 where
  pub is_set : Action W Bool
  pub wait : ℕ → Action W Bool

-- A `ProviderMessagePuller`.
pub record MessagePuller (W : Type 0) : Type 0 where
  pub adapter : ProviderAdapter W
  pub config : ProviderSyncConfig
  pub state : PullerState

-- What the constructor is given and never changes.
pub record Worker (W : Type 0) : Type 0 where
  pub im_client : ImClient W
  pub adapters : Dict String (ProviderAdapter W)
  pub retry : RetryConfig
  pub worker_principal : ℕ
  pub worker_token : String
  pub stop_event : StopEvent W
  pub now : Clock W

pub record ProcessorState (W : Type 0) : Type 0 where
  pub mapping : P2PMappingIndex
  pub message_pullers : Dict String (MessagePuller W)
  pub state : RuntimeState
  pub pending_events : List ProviderEvent
  pub pending_event_limit : ℕ
  pub work_turn : ℕ

abbrev pub fatal : Error
fatal = error fatal_syncer

-- `raise FatalSyncerError(...) from e`
abbrev pub fatal_from : Error → Error
fatal_from e = caused_by fatal_syncer e

-- `except KeyError`
unfoldable pub is_key_error : Error → Bool
is_key_error (error key_error) = true
is_key_error (caused_by key_error e) = true
is_key_error e = false

unfoldable pub on_key_error {ℓ} : {A : Type ℓ} → (Error → Error) → Result A → Result A
on_key_error f (ok a) = ok a
on_key_error f (raise e) = raise (if is_key_error e then f e else e)

-- The code of the first `RpcError` in the chain of causes.
unfoldable pub rpc_status_code : Error → Option StatusCode
rpc_status_code (error c) = elim (class_code c) [ some code ↦ code | none ↦ none ]
rpc_status_code (caused_by c e) = elim (class_code c) [
  | some code ↦ code
  | none ↦ rpc_status_code e
]

unfoldable pub is_code_exhausted : Option StatusCode → Bool
is_code_exhausted (some resource_exhausted) = true
is_code_exhausted code = false

unfoldable pub is_resource_exhausted : Error → Bool
is_resource_exhausted e = is_code_exhausted (rpc_status_code e)

unfoldable pub is_code_transient : Option StatusCode → Bool
is_code_transient (some unavailable) = true
is_code_transient (some deadline_exceeded) = true
is_code_transient code = false

unfoldable pub is_transient_publish_error : Error → Bool
is_transient_publish_error e = is_code_transient (rpc_status_code e)

-- `provider_queue_sizes` of the constructor.
unfoldable pub queue_sizes : P2PMappingIndex → List ℕ → Dict String ℕ → Result (Dict String ℕ)
queue_sizes m [] sizes = ok sizes
queue_sizes m (channel_id ∷ ids) sizes = do
  (provider, _) ← provider_session m channel_id
  config ← provider_config_for_channel m channel_id
  queue_sizes m ids (insert provider config.sync.event_queue_size sizes)

unfoldable pub sum_values : Dict String ℕ → ℕ
sum_values [] = 0
sum_values ((k, n) ∷ d) = n + sum_values d

-- `SingleThreadProcessor(...)`
unfoldable pub new_processor :
    {W : Type 0}
    → P2PMappingIndex
    → Dict String (MessagePuller W)
    → RuntimeState
    → Result (ProcessorState W)
new_processor mapping pullers state = do
  sizes ← queue_sizes mapping (channel_ids mapping) []
  ok (record {
    mapping = mapping;
    message_pullers = pullers;
    state = state;
    pending_events = [];
    pending_event_limit = sum_values sizes;
    work_turn = 0;
  })

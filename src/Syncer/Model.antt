-- ===== src/Syncer/Model.antt =====
-- The constructor of `P2PSyncer`, with adapter_registry.py.
use openevent_modules_im.Prelude.{
  ℕ, String, Bool, false, Option, List, [], ◌∷◌, ◌==◌, ◌||◌, string_eq, if◌then◌else◌, Dict, Result,
  ok, raise, ◌>>=◌, ◌>>◌, error, config_error, Error,
}
use openevent_modules_im.Prelude.Actions.{Action}
use openevent_modules_im.Json.{Json}
use openevent_modules_im.Models.{ProviderConfig, SyncerConfig}
use openevent_modules_im.Adapter.{ProviderAdapter, Clock}
use openevent_modules_im.OpenEvent.{OpenEventClient}
use openevent_modules_im.Client.Publish.{publish_send_result, publish_sync_record}
use openevent_modules_im.Json.{Fields}
use openevent_modules_im.Prelude.{Eq}
use openevent_modules_im.Mapping.Index.{P2PMappingIndex, build, provider_session}
use openevent_modules_im.Puller.Model.{fresh_puller}
use openevent_modules_im.State.Model.{initial, RuntimeState}
use openevent_modules_im.State.Results.{latest_event_ms}
use openevent_modules_im.Processor.Model.{
  ImClient, StopEvent, MessagePuller, Worker, ProcessorState, new_processor,
}

-- What the program imports or makes itself, and what a syncer is given beside its configuration.
-- `lark_adapter` is `LarkOpenAPIAdapter`, `loads` and `loads_text` are `json.loads`.
pub record Surroundings (W Bytes : Type 0) : Type 0 where
  pub openevent : OpenEventClient W Bytes
  pub lark_adapter : ProviderConfig → Result (ProviderAdapter W)
  pub dumps : Fields → Bytes
  pub loads : Bytes → Result Json
  pub loads_text : String → Result Json
  pub visibility_private : ℕ
  pub stop_event : StopEvent W
  pub set_stop : Action W (Unit {0})
  pub now : Clock W

-- A `P2PSyncer`, but for what changes.
pub record Syncer (W Bytes : Type 0) : Type 0 where
  pub worker : Worker W
  pub around : Surroundings W Bytes

-- What changes, beside the world.
pub record SyncerState (W : Type 0) : Type 0 where
  pub processor : ProcessorState W
  pub stopped : Bool

abbrev pub bad_config : Error
bad_config = error config_error

unfoldable pub create_adapter :
    {W : Type 0}
    → (ProviderConfig → Result (ProviderAdapter W))
    → ProviderConfig
    → Result (ProviderAdapter W)
create_adapter lark_adapter config =
    if config.name == "feishu" || config.name == "lark"
    then lark_adapter config
    else raise bad_config

-- `self.adapters`
unfoldable pub create_adapters :
    {W : Type 0}
    → (ProviderConfig → Result (ProviderAdapter W))
    → Dict String ProviderConfig
    → Result (Dict String (ProviderAdapter W))
create_adapters lark_adapter [] = ok []
create_adapters lark_adapter ((name, provider) ∷ providers) = do
  adapter ← create_adapter lark_adapter provider
  adapters ← create_adapters lark_adapter providers
  ok ((name, adapter) ∷ adapters)

-- The loop that compares the names.
unfoldable pub check_names : {W : Type 0} → Dict String (ProviderAdapter W) → Result (Unit {0})
check_names [] = ok tt
check_names ((name, adapter) ∷ adapters) =
    let rest = check_names adapters in
    if adapter.provider_name == name then rest else raise bad_config

-- `self.message_pullers`. The adapter of a provider stands at the same place.
unfoldable pub create_pullers :
    {W : Type 0}
    → Dict String ProviderConfig
    → Dict String (ProviderAdapter W)
    → Dict String (MessagePuller W)
create_pullers ((name, provider) ∷ providers) ((name', adapter) ∷ adapters) =
    (name, record { adapter = adapter; config = provider.sync; state = fresh_puller })
    ∷ create_pullers providers adapters
create_pullers providers adapters = []

-- `{session_id: latest_event_ms(channel_id) for ...}`
unfoldable pub session_highwater :
    P2PMappingIndex → RuntimeState → String → List ℕ → Result (Dict String (Option ℕ))
session_highwater mapping state provider [] = ok []
session_highwater mapping state provider (channel_id ∷ ids) = do
  (mapped_provider, session_id) ← provider_session mapping channel_id
  rest ← session_highwater mapping state provider ids
  ok (
      if mapped_provider == provider
      then (session_id, latest_event_ms state channel_id) ∷ rest
      else rest)

module _ {W Bytes : Type 0} ⦃eq : Eq Bytes⦄ (around : Surroundings W Bytes) where
  -- `create_client(openevent_client)`, as far as the processor uses it.
  unfoldable pub create_client : ImClient W
  create_client = record {
    publish_send_result = publish_send_result around.openevent around.dumps;
    publish_sync_record = publish_sync_record around.openevent around.dumps;
  }

  unfoldable pub new_syncer : SyncerConfig → Result (Syncer W Bytes × SyncerState W)
  new_syncer config = do
    mapping ← build config
    adapters ← create_adapters around.lark_adapter config.providers
    check_names adapters
    processor ← new_processor mapping (create_pullers config.providers adapters) initial
    ok (
      record {
        worker = record {
          im_client = create_client;
          adapters = adapters;
          retry = config.retry;
          worker_principal = config.worker.principal;
          worker_token = config.worker.token;
          stop_event = around.stop_event;
          now = around.now;
        };
        around = around;
      },
      record { processor = processor; stopped = false },
    )

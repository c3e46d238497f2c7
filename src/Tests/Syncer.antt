-- ===== src/Tests/Syncer.antt =====
-- A syncer of the one channel, on an OpenEvent without messages.
use openevent_modules_im.Prelude.{
  ℕ, ◌≡◌, ◌≢◌, refl, false, string_eq, nat_eq, list_eq, none, some, [], ◌∷◌, ok, raise, error,
  decode_error, lookup, insert, sorted,
}
use openevent_modules_im.Prelude.Actions.{pure}
use openevent_modules_im.Json.{null, str, obj, field, end}
use openevent_modules_im.Models.{MappingEntry}
use openevent_modules_im.OpenEvent.{OpenEventClient, Message}
use openevent_modules_im.Sdk.Model.{ParsedMessage}
use openevent_modules_im.Mapping.Index.{
  entries_for_channel, channel_ids, provider_session, provider_config_for_channel, item,
}
use openevent_modules_im.State.Model.{initial}
use openevent_modules_im.State.Closing.{Reach}
use openevent_modules_im.State.Invariant.{IsValid}
use openevent_modules_im.Puller.Model.{fresh_puller}
use openevent_modules_im.Processor.Model.{ProcessorState, new_processor, queue_sizes, sum_values}
use openevent_modules_im.Syncer.Model.{
  Surroundings, Syncer, create_adapter, create_adapters, check_names, create_pullers, create_client,
  new_syncer,
}
use openevent_modules_im.Syncer.Messages.{validate_message_roles, process_live, process_history}
use openevent_modules_im.Syncer.Roles.{Judged, validate_message_roles-Judged}
use openevent_modules_im.Syncer.Replaying.{Same, process_live-process_history}
use openevent_modules_im.Syncer.History.{history_page, history_from, fetch_from}
use openevent_modules_im.Syncer.Scanning.{history_from_lem}
use openevent_modules_im.Syncer.Run.{start_syncer}
use openevent_modules_im.Syncer.Valid.{start_syncer-IsValid}
use openevent_modules_im.Syncer.Polling.{
  Poll, is_any, later_than, prefetch, validated_next_seq, current_of, snapshot_of, process_each,
  end_round, take_page, fetch_round, poll_round,
}
use openevent_modules_im.Syncer.Snapshots.{IsPolled, Polled, entered, went_on, poll_round-IsPolled}
use openevent_modules_im.Tests.Mapping.{config, index, retry_config, sync_config, built, owned}
use openevent_modules_im.Tests.Puller.{adapter, clock}

abbrev openevent : OpenEventClient ℕ ℕ
openevent = record {
  publish_auto_seq = λ principal token channel_id payload recipients. pure (some 5);
  get_status = λ principal token. pure 3;
  fetch = λ principal token from_seq limit mine channels.
      pure (record { messages = []; next_seq = 4; last_seq = 3 });
  get_channel = λ principal token channel_id. pure (record {
    protocol = "im.v1";
    description = "d";
    visibility = 1;
    members = 1 ∷ 20 ∷ 30 ∷ [];
  });
}

abbrev around : Surroundings ℕ ℕ
around = record {
  openevent = openevent;
  lark_adapter = λ provider. ok adapter;
  dumps = λ fields. 0;
  loads = λ bytes. raise (error decode_error);
  loads_text = λ text. ok (
      obj (
        field "provider" (str "lark")
          (field "session_id" (str "oc_1") (field "session_type" (str "p2p") end))));
  visibility_private = 1;
  stop_event = record { is_set = pure false; wait = λ ms. pure false };
  set_stop = pure tt;
  now = clock;
}

abbrev syncer : Syncer ℕ ℕ
syncer = record {
  worker = record {
    im_client = create_client around;
    adapters = ("lark", adapter) ∷ [];
    retry = retry_config;
    worker_principal = 1;
    worker_token = "w";
    stop_event = around.stop_event;
    now = clock;
  };
  around = around;
}

abbrev processor : ProcessorState ℕ
processor = record {
  mapping = index;
  message_pullers =
      ("lark", record { adapter = adapter; config = sync_config; state = fresh_puller }) ∷ [];
  state = initial;
  pending_events = [];
  pending_event_limit = 2;
  work_turn = 0;
}

made : new_syncer around config ≡ ok (syncer, record { processor = processor; stopped = false })
unfolding new_syncer create_adapters create_adapter check_names create_pullers new_processor
    queue_sizes sum_values channel_ids provider_session provider_config_for_channel item lookup
    insert string_eq sorted nat_eq
made = rw built refl

start_syncer-IsValid_example :
    Reach
      (start_syncer syncer 4
        (record { processor = processor; stopped = false }, 0)).1.0.processor.state
    × IsValid
        (start_syncer syncer 4
          (record { processor = processor; stopped = false }, 0)).1.0.processor.state
start_syncer-IsValid_example =
    start_syncer-IsValid around config syncer (record { processor = processor; stopped = false })
      made 4 0

history_from_lem_example :
    history_from syncer 3 1 (processor, 0)
    ≡ history_page syncer 3 (history_from syncer 3) 1 (processor, 0)
history_from_lem_example = history_from_lem syncer 3 1 (processor, 0)

abbrev parsed : ParsedMessage
parsed = record {
  seq = 5;
  channel_id = 7;
  principal = 20;
  recipients = 30 ∷ [];
  kind = "sync.record";
  payload = end;
  data_fields = end;
  event_ms = 900;
  ingested_ms = null;
  request_id = null;
  prev_seq = none;
}

validate_message_roles-Judged_example :
    (x : MappingEntry) × (y : MappingEntry) × (entries_for_channel index 7 ≡ (x ∷ y ∷ [], index))
    × (x.principal ≢ y.principal)
    × Judged processor parsed x y (validate_message_roles 1 parsed processor)
validate_message_roles-Judged_example =
    validate_message_roles-Judged config processor 1 parsed built owned refl

abbrev request : ParsedMessage
request = record {
  seq = 6;
  channel_id = 7;
  principal = 20;
  recipients = 30 ∷ [];
  kind = "send.request";
  payload = end;
  data_fields = field "content" (obj end) end;
  event_ms = 900;
  ingested_ms = null;
  request_id = str "r";
  prev_seq = none;
}

process_live-process_history_example :
    Same
      (process_live around.loads 1 request processor)
      (process_history around.loads 1 request processor)
process_live-process_history_example =
    process_live-process_history processor around.loads 1 config request built refl

-- OpenEvent with a message that was published after the snapshot was taken.
abbrev late : Message ℕ
late = record { seq = 5; channel_id = 7; principal = 20; recipients = 30 ∷ []; payload = 0 }

abbrev busy : Syncer ℕ ℕ
busy = record syncer {
  around = record around {
    openevent = record openevent {
      fetch = λ principal token from_seq limit mine channels.
          pure (record { messages = late ∷ []; next_seq = 2; last_seq = 3 });
    };
  };
}

abbrev after_page : Poll ℕ
after_page = record {
  next_seq = 2;
  snapshot_last_seq = some 3;
  snapshot_had_messages = false;
  prefetched_messages = late ∷ [];
  prefetched_last_seq = some 3;
}

a_round : Polled busy 1 after_page
unfolding poll_round fetch_round fetch_from take_page end_round prefetch snapshot_of current_of
    later_than validated_next_seq is_any process_each channel_ids
a_round = went_on (processor, 0) (processor, 0) entered refl

poll_round-IsPolled_example : IsPolled after_page
poll_round-IsPolled_example = poll_round-IsPolled busy 1 after_page a_round

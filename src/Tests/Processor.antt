-- ===== src/Tests/Processor.antt =====
-- A worker of the one channel, whose first publish is refused with UNAVAILABLE.
use openevent_modules_im.Prelude.{
  ℕ, zero, suc, ◌≡◌, refl, true, false, string_eq, nat_eq, some, [], ◌∷◌, ok, raise, error,
  caused_by, publish_failed, rpc_error, unavailable, lookup, arith,
}
use openevent_modules_im.Prelude.Actions.{Action, pure}
use openevent_modules_im.Json.{end}
use openevent_modules_im.Mapping.Index.{
  item, principal_for_external_user, user_token, peer_principals, touch_channel, filter_map_by,
  external_key_eq,
}
use openevent_modules_im.State.Model.{OutboundTask, initial, inbound_key_eq}
use openevent_modules_im.State.Results.{mark_sync_record}
use openevent_modules_im.Processor.Model.{Worker, ProcessorState, on_key_error}
use openevent_modules_im.Processor.Retry.{attempts, publish_with_retry}
use openevent_modules_im.Processor.Outbound.{process_outbound_task}
use openevent_modules_im.Processor.Sending.{Outcome, process_outbound_task-Outcome}
use openevent_modules_im.Processor.Inbound.{
  publish_sync_record, publish_event, publish_new_event, publish_provider_event,
  process_next_provider_event,
}
use openevent_modules_im.Processor.Picking.{Picks, process_next_provider_event-Picks}
use openevent_modules_im.Processor.Once.{publish_provider_event-again}
use openevent_modules_im.Processor.Tick.{collect_provider_messages}
use openevent_modules_im.Processor.Bounded.{IsBounded, collect_provider_messages-IsBounded}
use openevent_modules_im.Tests.Mapping.{index, retry_config, sync_config}
use openevent_modules_im.Tests.Puller.{adapter, clock, message, puller}

-- The world counts the calls; the first publish fails.
abbrev publish : Action ℕ ℕ
publish zero =
    (raise (caused_by (publish_failed true false) (error (rpc_error (some unavailable)))), 1)
publish (suc n) = (ok 42, suc (suc n))

abbrev worker : Worker ℕ
worker = record {
  im_client = record {
    publish_send_result = λ principal token channel_id recipients req. publish;
    publish_sync_record = λ principal token channel_id recipients req. publish;
  };
  adapters = ("lark", adapter) ∷ [];
  retry = retry_config;
  worker_principal = 1;
  worker_token = "w";
  stop_event = record { is_set = pure false; wait = λ ms. pure false };
  now = clock;
}

abbrev processor : ProcessorState ℕ
processor = record {
  mapping = index;
  message_pullers =
      ("lark", record { adapter = adapter; config = sync_config; state = puller }) ∷ [];
  state = initial;
  pending_events = [];
  pending_event_limit = 2;
  work_turn = 0;
}

abbrev task : OutboundTask
task = record {
  seq = 5;
  channel_id = 7;
  principal = 30;
  request_id = "a";
  msg_type = "text";
  content = end;
}

none_pending : IsBounded processor
none_pending = omega arith

process_outbound_task-Outcome_example :
    Outcome task processor worker 0 (process_outbound_task worker task (processor, 0))
process_outbound_task-Outcome_example = process_outbound_task-Outcome task processor worker 0

abbrev after_publish : ProcessorState ℕ
after_publish = record processor {
  state = mark_sync_record initial ("lark", "oc_1", 7, "om_1") 7 900;
}

published : publish_provider_event worker 7 message (processor, 0) ≡ (ok tt, (after_publish, 2))
unfolding publish_provider_event publish_new_event principal_for_external_user user_token
    peer_principals touch_channel filter_map_by publish_event publish_sync_record publish_with_retry
    attempts on_key_error item lookup external_key_eq nat_eq
published = refl

publish_provider_event-again_example :
    publish_provider_event worker 7 message (after_publish, 2) ≡ (ok tt, (after_publish, 2))
publish_provider_event-again_example =
    publish_provider_event-again worker 7 message processor after_publish 0 2 published

collect_provider_messages-IsBounded_example :
    IsBounded (collect_provider_messages worker (processor, 0)).1.0
collect_provider_messages-IsBounded_example =
    collect_provider_messages-IsBounded worker processor 0 none_pending

abbrev waiting : ProcessorState ℕ
waiting = record processor { pending_events = message ∷ [] }

process_next_provider_event-Picks_example :
    Picks worker waiting (message ∷ []) (process_next_provider_event worker (waiting, 0))
process_next_provider_event-Picks_example = process_next_provider_event-Picks worker waiting 0

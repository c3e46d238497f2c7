-- ===== src/Processor/Inbound.antt =====
-- `_process_next_provider_event` and `_publish_provider_event` of loop.py.
use openevent_modules_im.Prelude.{
  is_publish_failed, ℕ, String, Bool, true, false, ◌&&◌, Option, none, some, List, [], ◌∷◌, ◌++◌,
  contains, if◌then◌else◌, string_eq, lookup, insert, Error,
}
use openevent_modules_im.Prelude.Actions.{
  Action, pure, throw, of_result, try_except, get_state, ◌>>=◌, ◌>>◌,
}
use openevent_modules_im.Json.{Json, int, bool, str, obj, null, pos, Fields, end, field}
use openevent_modules_im.Models.{ProviderEvent}
use openevent_modules_im.Sdk.Model.{SyncRecordInput}
use openevent_modules_im.Mapping.Index.{
  channel_for_provider_session, principal_for_external_user, user_token, peer_principals,
}
use openevent_modules_im.Processor.Model.{
  Worker, ProcessorState, fatal, fatal_from, on_key_error, is_resource_exhausted,
}
use openevent_modules_im.Processor.Retry.{publish_with_retry}
use openevent_modules_im.Processor.Outbound.{beyond, update_processor}
use openevent_modules_im.Puller.Model.{acknowledge}
use openevent_modules_im.State.Model.{InboundKey, inbound_key_eq}
use openevent_modules_im.State.Requests.{channel_has_pending}
use openevent_modules_im.State.Results.{mark_sync_record}

unfoldable pub optional_str : Option String → Json
optional_str none = null
optional_str (some s) = str s

unfoldable pub optional_int : Option ℕ → Json
optional_int none = null
optional_int (some n) = int (pos n)

abbrev pub event_key : ℕ → ProviderEvent → InboundKey
event_key channel_id event =
    (event.provider, event.session_id, channel_id, event.provider_message_id)

unfoldable pub full_record : ProviderEvent → Option ℕ → ℕ → SyncRecordInput
full_record event prev_seq ingested_ms = record {
  provider_message_id = str event.provider_message_id;
  msg_type = str event.msg_type;
  content_raw = obj event.content_raw;
  event_ms = int (pos event.event_ms);
  ingested_ms = int (pos ingested_ms);
  prev_seq = optional_int prev_seq;
  text = optional_str event.text;
  is_init = null;
  content_omitted = null;
  omit_reason = null;
  text_preview = null;
  extra_data = end;
}

abbrev pub too_large : Json
too_large = str "message_too_large"

unfoldable pub omitted_content : ProviderEvent → Fields
omitted_content event = field "omitted" (bool true) (
    field "reason" too_large (
      field "metadata"
        (obj (
          field "provider" (str event.provider) (
            field "session_id" (str event.session_id) (
              field "sender_identity_type" (str event.sender_identity_type) (
                field "sender_external_user_id" (str event.sender_external_user_id)
                  (field "msg_type" (str event.msg_type) end))))))
        end))

-- The record without the content, for one that OpenEvent finds too large.
unfoldable pub fallback_record : ProviderEvent → Option ℕ → ℕ → SyncRecordInput
fallback_record event prev_seq ingested_ms = record (full_record event prev_seq ingested_ms) {
  content_raw = obj (omitted_content event);
  text = null;
  content_omitted = bool true;
  omit_reason = too_large;
}

module _ {W : Type 0} (worker : Worker W) where
  open worker use {im_client, now}

  unfoldable pub publish_sync_record :
      ℕ → String → ℕ → List ℕ → SyncRecordInput → Action (ProcessorState W × W) ℕ
  publish_sync_record principal token channel_id recipients req = beyond (
      publish_with_retry worker
        (im_client.publish_sync_record principal token channel_id recipients req))

  -- The handler of the `except` around the first publish, whose result is not used.
  unfoldable pub publish_fallback :
      ℕ
      → String
      → ℕ
      → List ℕ
      → ProviderEvent
      → Option ℕ
      → Error
      → Action (ProcessorState W × W) (Unit {0})
  publish_fallback principal token channel_id recipients event prev_seq e =
      if is_publish_failed e && is_resource_exhausted e
      then (do
        ingested_ms ← beyond now
        try_except
            (do
              publish_sync_record principal token channel_id recipients
                  (fallback_record event prev_seq ingested_ms)
              pure tt)
            (λ e'.
              if is_publish_failed e' && is_resource_exhausted e'
              then throw (fatal_from e')
              else throw e'))
      else throw e

  -- Both publishes, of an event whose sender is known.
  unfoldable pub publish_event :
      ℕ → ℕ → String → List ℕ → Option ℕ → ProviderEvent → Action (ProcessorState W × W) (Unit {0})
  publish_event channel_id principal token recipients prev_seq event = do
    ingested_ms ← beyond now
    try_except
        (do
          publish_sync_record principal token channel_id recipients
              (full_record event prev_seq ingested_ms)
          pure tt)
        (publish_fallback principal token channel_id recipients event prev_seq)

  -- `_publish_provider_event` from the sender's mapping on.
  unfoldable pub publish_new_event : ℕ → ProviderEvent → Action (ProcessorState W × W) (Unit {0})
  publish_new_event channel_id event = do
    (p, _) ← get_state
    principal ← of_result (
        on_key_error (λ e. fatal)
          (principal_for_external_user p.mapping channel_id event.provider
            event.sender_external_user_id event.sender_identity_type))
    token ← of_result (user_token p.mapping principal)
    let (recipients, mapping) = peer_principals p.mapping channel_id principal
    update_processor (λ p. record p { mapping = mapping })
    publish_event channel_id principal token recipients
        (lookup (event_key channel_id event) p.state.send_result_by_provider_message) event

  unfoldable pub publish_provider_event :
      ℕ → ProviderEvent → Action (ProcessorState W × W) (Unit {0})
  publish_provider_event channel_id event = do
    (p, _) ← get_state
    if contains p.state.inbound_seen (event_key channel_id event) then pure tt else do
      publish_new_event channel_id event
      update_processor (λ p. record p {
        state = mark_sync_record p.state (event_key channel_id event) channel_id event.event_ms;
      })

  -- `puller.acknowledge(event)`, with the missing puller.
  unfoldable pub acknowledge_event : ProviderEvent → Action (ProcessorState W × W) (Unit {0})
  acknowledge_event event = do
    (p, _) ← get_state
    elim (lookup event.provider p.message_pullers) [
      | none ↦ throw fatal
      | some puller ↦ do
        state ← of_result (acknowledge puller.adapter.provider_name event puller.state)
        update_processor (λ p. record p {
          message_pullers =
              insert event.provider (record puller { state = state }) p.message_pullers;
        })
    ]

  -- The rest of the loop over the pending events, with those before it.
  unfoldable pub process_events :
      List ProviderEvent → List ProviderEvent → Action (ProcessorState W × W) Bool
  process_events passed [] = pure false
  process_events passed (event ∷ rest) = do
    (p, _) ← get_state
    channel_id ← of_result (
        on_key_error (λ e. fatal)
          (channel_for_provider_session p.mapping event.provider event.session_id))
    if channel_has_pending p.state channel_id
        then process_events (passed ++ event ∷ []) rest
        else do
          publish_provider_event channel_id event
          acknowledge_event event
          update_processor (λ p. record p { pending_events = passed ++ rest })
          pure true

  unfoldable pub process_next_provider_event : Action (ProcessorState W × W) Bool
  process_next_provider_event = do (p, _) ← get_state; process_events [] p.pending_events

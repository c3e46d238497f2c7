-- ===== src/Processor/Outbound.antt =====
-- `_process_next_outbound_task` and `_process_outbound_task` of loop.py.
use openevent_modules_im.Prelude.{
  ℕ, String, Bool, true, false, Option, none, some, [], ◌∷◌, ◌==◌, if◌then◌else◌, string_eq, lookup,
  ok,
}
use openevent_modules_im.Prelude.Actions.{
  Action, pure, throw, of_result, try_except, get_state, ◌>>=◌, ◌>>◌,
}
use openevent_modules_im.Json.{int, str, null, pos}
use openevent_modules_im.Models.{SendResult}
use openevent_modules_im.Sdk.Model.{SendResultInput}
use openevent_modules_im.Mapping.Index.{item, provider_session, sender_external_user_id}
use openevent_modules_im.Processor.Model.{Worker, ProcessorState, fatal, fatal_from, on_key_error}
use openevent_modules_im.Processor.Retry.{publish_with_retry}
use openevent_modules_im.State.Model.{OutboundTask}
use openevent_modules_im.State.Requests.{next_pending_task}
use openevent_modules_im.State.Results.{mark_send_result_success}

-- A call of something outside the processor.
abbrev pub beyond : {W A : Type 0} → Action W A → Action (ProcessorState W × W) A
beyond m (p, w) = let (result, w') = m w in (result, (p, w'))

abbrev pub update_processor :
    {W : Type 0} → (ProcessorState W → ProcessorState W) → Action (ProcessorState W × W) (Unit {0})
update_processor f (p, w) = (ok tt, (f p, w))

-- The provider's message id, if the result is a success with one that is not empty.
unfoldable pub sent_message_id : SendResult → Option String
sent_message_id result =
    if result.success
    then elim result.provider_message_id [
      | none ↦ none
      | some id ↦ if id == "" then none else some id
    ]
    else none

unfoldable pub send_result_input : OutboundTask → String → ℕ → SendResultInput
send_result_input task provider_message_id event_ms = record {
  request_id = str task.request_id;
  prev_seq = int (pos task.seq);
  status = str "SUCCESS";
  event_ms = int (pos event_ms);
  provider_message_id = str provider_message_id;
  error_code = null;
  error_message = null;
}

module _ {W : Type 0} (worker : Worker W) where
  open worker use {im_client, adapters, worker_principal, worker_token, now}

  -- From the clock on, once the provider has sent the message.
  unfoldable pub publish_sent :
      OutboundTask → String → String → String → Action (ProcessorState W × W) (Unit {0})
  publish_sent task provider session_id provider_message_id = do
    event_ms ← beyond now
    seq ← beyond (
        publish_with_retry worker (
          im_client.publish_send_result worker_principal worker_token task.channel_id
            (task.principal ∷ []) (send_result_input task provider_message_id event_ms)))
    update_processor (λ p. record p {
      state = mark_send_result_success p.state task provider session_id provider_message_id seq;
    })

  unfoldable pub process_outbound_task : OutboundTask → Action (ProcessorState W × W) (Unit {0})
  process_outbound_task task = do
    (p, _) ← get_state
    (provider, session_id) ← of_result (provider_session p.mapping task.channel_id)
    sender ← of_result (
        on_key_error fatal_from
          (sender_external_user_id p.mapping task.channel_id task.principal (some "bot")))
    adapter ← of_result (item (lookup provider adapters))
    result ←
        try_except
          (beyond
            (adapter.send_message session_id sender task.msg_type task.content task.request_id))
          (λ e. throw (fatal_from e))
    elim (sent_message_id result) [
      | none ↦ throw fatal
      | some id ↦ publish_sent task provider session_id id
    ]

  unfoldable pub process_next_outbound_task : Action (ProcessorState W × W) Bool
  process_next_outbound_task = do
    (p, _) ← get_state
    let (found, state) = next_pending_task p.state
    update_processor (λ p. record p { state = state })
    elim found [ none ↦ pure false | some task ↦ do process_outbound_task task; pure true ]

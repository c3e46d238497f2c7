-- ===== src/Processor/Delivered.antt =====
-- What `_process_outbound_task` has done where it returns.
use openevent_modules_im.Prelude.{
  ℕ, ◌≡◌, ◌≢◌, String, true, Option, none, some, [], ◌∷◌, contains, arith, lookup, string_eq,
  nat_eq, Result, ok, raise, Error,
}
use openevent_modules_im.Json.{int, pos, str, null}
use openevent_modules_im.Models.{SendResult}
use openevent_modules_im.Sdk.Model.{SendResultInput}
use openevent_modules_im.Adapter.{ProviderAdapter}
use openevent_modules_im.Mapping.Index.{item, provider_session, sender_external_user_id}
use openevent_modules_im.Processor.Model.{Worker, ProcessorState, on_key_error}
use openevent_modules_im.Processor.Retry.{publish_with_retry}
use openevent_modules_im.Processor.Outbound.{sent_message_id}
use openevent_modules_im.State.Model.{OutboundTask, inbound_key_eq}
use openevent_modules_im.State.Results.{mark_send_result_success}

-- What was sent for a task: the adapter of the provider of its channel has sent the content in the
-- session of the channel, as the bot of the sender, and has answered with success and a message id
-- that is not empty.
pub record Delivered {W : Type 0} (worker : Worker W) (task : OutboundTask) (p : ProcessorState W)
    (w : W) : Type 0 where
  pub provider : String
  pub session_id : String
  pub sender : String
  pub adapter : ProviderAdapter W
  pub result : SendResult
  pub message_id : String
  pub after : W
  pub routed : provider_session p.mapping task.channel_id ≡ ok (provider, session_id)
  pub sender_known :
      sender_external_user_id p.mapping task.channel_id task.principal (some "bot") ≡ ok sender
  pub adapter_known : lookup provider worker.adapters ≡ some adapter
  pub sent :
      adapter.send_message session_id sender task.msg_type task.content task.request_id w
      ≡ (ok result, after)
  pub succeeded : result.success ≡ true
  pub named : result.provider_message_id ≡ some message_id
  pub not_empty : message_id ≢ ""

-- The send.result of a task that the provider has sent.
abbrev pub success_of : OutboundTask → String → ℕ → SendResultInput
success_of task message_id event_ms = record {
  request_id = str task.request_id;
  prev_seq = int (pos task.seq);
  status = str "SUCCESS";
  event_ms = int (pos event_ms);
  provider_message_id = str message_id;
  error_code = null;
  error_message = null;
}

-- The request of the task is closed, its channel is free of it, and the message id that the provider
-- gave is linked to the number of the send.result that was published for it.
pub record Closed {W : Type 0} (worker : Worker W) (task : OutboundTask) (p : ProcessorState W)
    (w : W) (q : ProcessorState W) (end : W) : Type 0 where
  pub delivered : Delivered worker task p w
  pub event_ms : ℕ
  pub seq : ℕ
  pub published_from : W
  pub clock : worker.now delivered.after ≡ (ok event_ms, published_from)
  pub published :
      publish_with_retry worker
        (worker.im_client.publish_send_result worker.worker_principal worker.worker_token
          task.channel_id
          (task.principal ∷ [])
          (success_of task delivered.message_id event_ms))
        published_from
      ≡ (ok seq, end)
  pub marked : q ≡ record p {
    state =
        mark_send_result_success p.state task delivered.provider delivered.session_id
          delivered.message_id seq;
  }
  pub linked :
      lookup
        (delivered.provider, delivered.session_id, task.channel_id, delivered.message_id)
        q.state.send_result_by_provider_message
      ≡ some seq
  pub completed : contains q.state.completed_request_ids task.request_id ≡ true
  pub not_pending : lookup task.request_id q.state.requests_by_id ≡ none
  pub unblocked : lookup task.channel_id q.state.blocked_by_channel ≢ some task.request_id

pub sent_message_id-some :
    (result : SendResult) {id : String}
    → sent_message_id result ≡ some id
    → (result.success ≡ true) × (result.provider_message_id ≡ some id) × (id ≢ "")
unfolding sent_message_id
sent_message_id-some result h = (ground arith, ground arith, ground arith)

pub on_key_error-ok :
    {A : Type 0} (f : Error → Error) (r : Result A) {a : A} → on_key_error f r ≡ ok a → r ≡ ok a
unfolding on_key_error
on_key_error-ok f (ok a) h = h
on_key_error-ok f (raise e) h = absurd (ground arith)

pub item-ok : {A : Type 0} (o : Option A) {a : A} → item o ≡ ok a → o ≡ some a
unfolding item
item-ok none h = absurd (ground arith)
item-ok (some a) h = ground arith

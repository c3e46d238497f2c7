-- ===== src/Processor/Sending.antt =====
-- What `_process_outbound_task` does, outside and to the state of the processor.
use openevent_modules_im.Prelude.{
  ℕ, ◌≡◌, refl, ◌∙◌, String, Option, none, some, [], ◌∷◌, ==_refl, arith, lookup, string_eq, nat_eq,
  lookup-insert, lookup-erase, Result, ok, raise, ap,
}
use openevent_modules_im.Prelude.Actions.{Action, throw, try_except, of_result, and_then, ◌>>=◌}
use openevent_modules_im.Models.{SendResult}
use openevent_modules_im.Adapter.{ProviderAdapter}
use openevent_modules_im.Mapping.Index.{
  P2PMappingIndex, item, provider_session, sender_external_user_id,
}
use openevent_modules_im.Processor.Model.{Worker, ProcessorState, fatal, fatal_from, on_key_error}
use openevent_modules_im.Processor.Retry.{publish_with_retry}
use openevent_modules_im.Processor.Outbound.{
  beyond, update_processor, sent_message_id, send_result_input, publish_sent, process_outbound_task,
}
use openevent_modules_im.State.Model.{OutboundTask, add_to, inbound_key_eq}
use openevent_modules_im.State.Results.{unblock_channel, mark_send_result_success}
use openevent_modules_im.Processor.Delivered.{
  Delivered, success_of, Closed, sent_message_id-some, on_key_error-ok, item-ok,
}

module _ {W : Type 0} (task : OutboundTask) (p : ProcessorState W) (worker : Worker W) (w : W) where
  -- Closed where it returns, and the processor as it was where it raises.
  abbrev pub Outcome : Result (Unit {0}) × (ProcessorState W × W) → Type 0
  Outcome (ok x, (q, end)) = Closed worker task p w q end
  Outcome (raise e, (q, end)) = q ≡ p

  keeps :
      {A : Type 0} (r : Result A) (w' : W) (f : A → Action (ProcessorState W × W) (Unit {0}))
      → ((a : A) → r ≡ ok a → Outcome (f a (p, w')))
      → Outcome (and_then r f (p, w'))
  keeps (ok a) w' f h = h a refl
  keeps (raise e) w' f h = refl

  marked_Closed :
      (d : Delivered worker task p w) (event_ms seq : ℕ) (from end : W)
      → worker.now d.after ≡ (ok event_ms, from)
      → publish_with_retry worker
          (worker.im_client.publish_send_result worker.worker_principal worker.worker_token
            task.channel_id
            (task.principal ∷ [])
            (success_of task d.message_id event_ms))
          from
        ≡ (ok seq, end)
      → Closed worker task p w
          (record p {
            state = mark_send_result_success p.state task d.provider d.session_id d.message_id seq;
          })
          end
  unfolding mark_send_result_success unblock_channel add_to
  marked_Closed d event_ms seq from end clock published = record {
    delivered = d;
    event_ms = event_ms;
    seq = seq;
    published_from = from;
    clock = clock;
    published = published;
    marked = refl;
    linked =
        lookup-insert (d.provider, d.session_id, task.channel_id, d.message_id)
          (d.provider, d.session_id, task.channel_id, d.message_id) seq _
        ∙ ground arith;
    completed = ground (arith, ==_refl task.request_id);
    not_pending =
        ground (arith, lookup-erase task.request_id task.request_id p.state.requests_by_id);
    unblocked =
        ground (arith, lookup-erase task.channel_id task.channel_id p.state.blocked_by_channel);
  }

  publish_sent-Outcome :
      (d : Delivered worker task p w)
      → Outcome (publish_sent worker task d.provider d.session_id d.message_id (p, d.after))
  unfolding publish_sent send_result_input
  publish_sent-Outcome d =
      let (t, w1) = worker.now d.after in
      keeps t w1 close λ event_ms clock.
        let (r, w2) = publish_with_retry worker (answer event_ms) w1 in
        keeps r w2 mark λ seq published.
          marked_Closed d event_ms seq w1 w2 (ap (λ x. (x, w1)) clock) (ap (λ x. (x, w2)) published)
    where
      answer : ℕ → Action W ℕ
      answer event_ms =
          worker.im_client.publish_send_result worker.worker_principal worker.worker_token
            task.channel_id (task.principal ∷ []) (success_of task d.message_id event_ms)

      mark : ℕ → Action (ProcessorState W × W) (Unit {0})
      mark seq = update_processor (λ p. record p {
        state = mark_send_result_success p.state task d.provider d.session_id d.message_id seq;
      })

      close : ℕ → Action (ProcessorState W × W) (Unit {0})
      close event_ms = beyond (publish_with_retry worker (answer event_ms)) >>= mark

  -- `_process_outbound_task` either raises and leaves the processor as it was, or it returns, and the
  -- adapter of the provider has sent the content in the session of the task's channel, as the bot of
  -- the task's sender, with success and a message id that is not empty; a send.result with this id
  -- has been published to the requester; the request is completed and no longer pending, its channel
  -- is not blocked by it, and the message id is linked to the number of the send.result, under the
  -- provider session of the channel. Nothing else of the processor changes.
  pub process_outbound_task-Outcome : Outcome (process_outbound_task worker task (p, w))
  unfolding process_outbound_task
  process_outbound_task-Outcome =
      keeps (provider_session p.mapping task.channel_id) w route λ session routed.
        keeps (sender_of p.mapping) w (send session) λ sender known.
          keeps (item (lookup session.0 worker.adapters)) w (deliver session sender)
            λ adapter found.
              let (r, w') =
                adapter.send_message session.1 sender task.msg_type task.content task.request_id
                  w in
              sent session sender adapter routed (on_key_error-ok fatal_from _ known)
                (item-ok (lookup session.0 worker.adapters) found) r w' refl
    where
      finish : String × String → SendResult → Action (ProcessorState W × W) (Unit {0})
      finish session result = elim (sent_message_id result) [
        | none ↦ throw fatal
        | some id ↦ publish_sent worker task session.0 session.1 id
      ]

      deliver :
          String × String → String → ProviderAdapter W → Action (ProcessorState W × W) (Unit {0})
      deliver session sender adapter =
          try_except
            (beyond
              (adapter.send_message session.1 sender task.msg_type task.content task.request_id))
            (λ e. throw (fatal_from e))
          >>= finish session

      send : String × String → String → Action (ProcessorState W × W) (Unit {0})
      send session sender =
          of_result (item (lookup session.0 worker.adapters)) >>= deliver session sender

      sender_of : P2PMappingIndex → Result String
      sender_of m =
          on_key_error fatal_from
            (sender_external_user_id m task.channel_id task.principal (some "bot"))

      route : String × String → Action (ProcessorState W × W) (Unit {0})
      route session = of_result (sender_of p.mapping) >>= send session

      handled : Result SendResult → Action (ProcessorState W × W) SendResult
      handled r s = elim r as (λ x. Result SendResult × (ProcessorState W × W)) [
        | ok a ↦ (ok a, s)
        | raise e ↦ (raise (fatal_from e), s)
      ]

      sent :
          (session : String × String) (sender : String) (adapter : ProviderAdapter W)
          → provider_session p.mapping task.channel_id ≡ ok session
          → sender_external_user_id p.mapping task.channel_id task.principal (some "bot")
            ≡ ok sender
          → lookup session.0 worker.adapters ≡ some adapter
          → (r : Result SendResult) (w' : W)
          → adapter.send_message session.1 sender task.msg_type task.content task.request_id w
            ≡ (r, w')
          → Outcome ((handled r >>= finish session) (p, w'))
      sent session sender adapter routed known found (raise e) w' answer = refl
      sent session sender adapter routed known found (ok result) w' answer =
          finish-Outcome (sent_message_id result) refl
        where
          finish-Outcome :
              (o : Option String)
              → sent_message_id result ≡ o
              → Outcome (
                  (elim o as (λ x. Action (ProcessorState W × W) (Unit {0})) [
                    | none ↦ throw fatal
                    | some id ↦ publish_sent worker task session.0 session.1 id
                  ])
                    (p, w'))
          finish-Outcome none h = refl
          finish-Outcome (some id) h =
              let (succeeded, named, not_empty) = sent_message_id-some result h in
              publish_sent-Outcome (record {
                provider = session.0;
                session_id = session.1;
                sender = sender;
                adapter = adapter;
                result = result;
                message_id = id;
                after = w';
                routed = routed;
                sender_known = known;
                adapter_known = found;
                sent = answer;
                succeeded = succeeded;
                named = named;
                not_empty = not_empty;
              })

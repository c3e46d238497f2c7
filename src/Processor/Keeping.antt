-- ===== src/Processor/Keeping.antt =====
-- The calls that the two works of a `tick` make of the `RuntimeState`.
use openevent_modules_im.Prelude.{
  ℕ, ◌≡◌, refl, sym, subst, String, Bool, true, false, ◌&&◌, Option, none, some, List, [], ◌∷◌,
  ◌++◌, contains, string_eq, nat_eq, list_eq, lookup, insert, Result, ok, raise, Error,
  is_publish_failed,
}
use openevent_modules_im.Prelude.Actions.{Action, pure, throw, of_result, ◌>>=◌, ◌>>◌}
use openevent_modules_im.Prelude.Keeping.{
  Keeps, result-Keeps, bind-Keeps, and_then-Keeps, try-Keeps, if-Keeps,
}
use openevent_modules_im.Models.{ProviderEvent}
use openevent_modules_im.Sdk.Model.{SyncRecordInput}
use openevent_modules_im.State.Model.{inbound_key_eq, RuntimeState, OutboundTask}
use openevent_modules_im.State.Requests.{next_pending_task, channel_has_pending}
use openevent_modules_im.State.Pending.{next_pending_task-pending}
use openevent_modules_im.State.Closing.{take, sent, published, Reach, next, Reach-IsValid}
use openevent_modules_im.Mapping.Index.{
  channel_for_provider_session, principal_for_external_user, user_token, peer_principals,
}
use openevent_modules_im.Puller.Model.{acknowledge}
use openevent_modules_im.Processor.Model.{
  Worker, ProcessorState, MessagePuller, fatal, fatal_from, on_key_error, is_resource_exhausted,
}
use openevent_modules_im.Processor.Outbound.{
  beyond, update_processor, process_outbound_task, process_next_outbound_task,
}
use openevent_modules_im.Processor.Sending.{Outcome, process_outbound_task-Outcome}
use openevent_modules_im.Processor.Inbound.{
  event_key, publish_sync_record, publish_fallback, publish_event, publish_new_event,
  publish_provider_event, acknowledge_event, process_events, process_next_provider_event,
}

-- The `RuntimeState` is one that calls of its operations lead to.
abbrev pub HasReached : {W : Type 0} → ProcessorState W × W → Type 0
HasReached (p, w) = Reach p.state

module _ {W : Type 0} where
  pub beyond-Keeps : {A : Type 0} (m : Action W A) → Keeps HasReached (beyond m)
  beyond-Keeps m = record { kept = λ s r. r }

  pub update-Keeps :
      (f : ProcessorState W → ProcessorState W)
      → ((p : ProcessorState W) → (f p).state ≡ p.state)
      → Keeps HasReached (update_processor f)
  update-Keeps f same = record { kept = λ s r. subst Reach (sym (same s.0)) r }

module _ {W : Type 0} (worker : Worker W) where
  sent-Reach :
      (task : OutboundTask) (p : ProcessorState W) (w : W)
      → lookup task.request_id p.state.requests_by_id ≡ some task
      → Reach p.state
      → (r : Result Unit × (ProcessorState W × W)) → Outcome task p worker w r
      → Reach r.1.0.state
  sent-Reach task p w pending reached (ok x, (q, w')) closed =
      subst (λ q. Reach q.state) (sym closed.marked)
        (next reached (
          sent task closed.delivered.provider closed.delivered.session_id
            closed.delivered.message_id closed.seq pending refl))
  sent-Reach task p w pending reached (raise e, (q, w')) same =
      subst (λ q. Reach q.state) (sym same) reached

  taken-Reach :
      (p : ProcessorState W) (w : W) (found : Option OutboundTask × RuntimeState)
      → Reach p.state
      → next_pending_task p.state ≡ found
      → Reach
          ((elim found.0 as (λ x. Action (ProcessorState W × W) Bool) [
            | none ↦ pure false
            | some task ↦ process_outbound_task worker task >> pure true
          ])
            (record p { state = found.1 }, w)).1.0.state
  taken-Reach p w (none, s) r h = next r (take none h)
  taken-Reach p w (some task, s) r h =
      let q : ProcessorState W = record p { state = s } in
      let after = process_outbound_task worker task (q, w) in
      (and_then-Keeps HasReached after.0 _ (λ x. result-Keeps HasReached (ok true))).kept after.1 (
        sent-Reach task q w (next_pending_task-pending p.state (Reach-IsValid r) h)
          (next r (take (some task) h)) after (process_outbound_task-Outcome task q worker w))

  pub process_next_outbound_task-Keeps : Keeps HasReached (process_next_outbound_task worker)
  unfolding process_next_outbound_task
  process_next_outbound_task-Keeps = record {
    kept = λ (p, w) r. taken-Reach p w (next_pending_task p.state) r refl;
  }

  publish_sync_record-Keeps :
      (principal : ℕ) (token : String) (channel_id : ℕ) (recipients : List ℕ)
      (req : SyncRecordInput)
      → Keeps HasReached (publish_sync_record worker principal token channel_id recipients req)
  unfolding publish_sync_record
  publish_sync_record-Keeps principal token channel_id recipients req = beyond-Keeps _

  publish_fallback-Keeps :
      (principal : ℕ) (token : String) (channel_id : ℕ) (recipients : List ℕ)
      (event : ProviderEvent) (prev_seq : Option ℕ) (e : Error)
      → Keeps HasReached
          (publish_fallback worker principal token channel_id recipients event prev_seq e)
  unfolding publish_fallback
  publish_fallback-Keeps principal token channel_id recipients event prev_seq e =
      if-Keeps HasReached (is_publish_failed e && is_resource_exhausted e) _ _
        (bind-Keeps HasReached _ _ (beyond-Keeps worker.now) λ ingested_ms.
          try-Keeps HasReached _ _
            (bind-Keeps HasReached _ _
              (publish_sync_record-Keeps principal token channel_id recipients _)
              (λ seq. result-Keeps HasReached (ok tt)))
            (λ e'.
              if-Keeps HasReached (is_publish_failed e' && is_resource_exhausted e') _ _
                (result-Keeps HasReached (raise (fatal_from e')))
                (result-Keeps HasReached (raise e'))))
        (result-Keeps HasReached (raise e))

  publish_event-Keeps :
      (channel_id principal : ℕ) (token : String) (recipients : List ℕ) (prev_seq : Option ℕ)
      (event : ProviderEvent)
      → Keeps HasReached (publish_event worker channel_id principal token recipients prev_seq event)
  unfolding publish_event
  publish_event-Keeps channel_id principal token recipients prev_seq event =
      bind-Keeps HasReached _ _ (beyond-Keeps worker.now) λ ingested_ms.
        try-Keeps HasReached _ _
          (bind-Keeps HasReached _ _
            (publish_sync_record-Keeps principal token channel_id recipients _)
            (λ seq. result-Keeps HasReached (ok tt)))
          (publish_fallback-Keeps principal token channel_id recipients event prev_seq)

  publish_new_event-Keeps :
      (channel_id : ℕ) (event : ProviderEvent)
      → Keeps HasReached (publish_new_event worker channel_id event)
  unfolding publish_new_event
  publish_new_event-Keeps channel_id event = record {
    kept = λ s r.
        (bind-Keeps HasReached
            (of_result (
              on_key_error (λ e. fatal)
                (principal_for_external_user s.0.mapping channel_id event.provider
                  event.sender_external_user_id event.sender_identity_type)))
            _ (result-Keeps HasReached _)
            λ principal.
              bind-Keeps HasReached (of_result (user_token s.0.mapping principal)) _
                (result-Keeps HasReached _)
                λ token.
                  bind-Keeps HasReached _ _
                    (update-Keeps
                      (λ p. record p {
                        mapping = (peer_principals s.0.mapping channel_id principal).1;
                      })
                      (λ p. refl))
                    λ x.
                      publish_event-Keeps channel_id principal token
                        (peer_principals s.0.mapping channel_id principal).0
                        (lookup (event_key channel_id event)
                          s.0.state.send_result_by_provider_message)
                        event).kept
          s r;
  }

  publish_provider_event-Keeps :
      (channel_id : ℕ) (event : ProviderEvent)
      → Keeps HasReached (publish_provider_event worker channel_id event)
  unfolding publish_provider_event
  publish_provider_event-Keeps channel_id event = record {
    kept = λ s r.
        (if-Keeps HasReached (contains s.0.state.inbound_seen (event_key channel_id event)) _ _
            (result-Keeps HasReached (ok tt))
            (bind-Keeps HasReached _ _ (publish_new_event-Keeps channel_id event) λ x. record {
              kept = λ s r.
                  next r (published (event_key channel_id event) channel_id event.event_ms refl);
            })).kept
          s r;
  }

  abbrev acknowledged :
      ProviderEvent → Option (MessagePuller W) → Action (ProcessorState W × W) (Unit {0})
  acknowledged event found = elim found [
    | none ↦ throw fatal
    | some puller ↦
        of_result (acknowledge puller.adapter.provider_name event puller.state) >>= λ state.
        update_processor (λ p. record p {
          message_pullers =
              insert event.provider (record puller { state = state }) p.message_pullers;
        })
  ]

  acknowledged-Keeps :
      (event : ProviderEvent) (found : Option (MessagePuller W))
      → Keeps HasReached (acknowledged event found)
  acknowledged-Keeps event none = result-Keeps HasReached (raise fatal)
  acknowledged-Keeps event (some puller) =
      bind-Keeps HasReached
        (of_result (acknowledge puller.adapter.provider_name event puller.state)) _
        (result-Keeps HasReached _)
        λ state.
          update-Keeps
            (λ p. record p {
              message_pullers =
                  insert event.provider (record puller { state = state }) p.message_pullers;
            })
            (λ p. refl)

  acknowledge_event-Keeps :
      (event : ProviderEvent) → Keeps HasReached (acknowledge_event worker event)
  unfolding acknowledge_event
  acknowledge_event-Keeps event = record {
    kept = λ s r. (acknowledged-Keeps event (lookup event.provider s.0.message_pullers)).kept s r;
  }

  process_events-Keeps :
      (passed events : List ProviderEvent) → Keeps HasReached (process_events worker passed events)
  unfolding process_events
  process_events-Keeps passed [] = result-Keeps HasReached (ok false)
  process_events-Keeps passed (event ∷ rest) = record {
    kept = λ s r.
        (bind-Keeps HasReached
            (of_result (
              on_key_error (λ e. fatal)
                (channel_for_provider_session s.0.mapping event.provider event.session_id)))
            _ (result-Keeps HasReached _)
            λ channel_id.
              if-Keeps HasReached (channel_has_pending s.0.state channel_id) _ _
                (process_events-Keeps (passed ++ event ∷ []) rest)
                (bind-Keeps HasReached _ _ (publish_provider_event-Keeps channel_id event) λ x.
                  bind-Keeps HasReached _ _ (acknowledge_event-Keeps event) λ y.
                    bind-Keeps HasReached _ _
                      (update-Keeps (λ p. record p { pending_events = passed ++ rest }) (λ p. refl))
                      λ z. result-Keeps HasReached (ok true))).kept
          s r;
  }

  pub process_next_provider_event-Keeps : Keeps HasReached (process_next_provider_event worker)
  unfolding process_next_provider_event
  process_next_provider_event-Keeps = record {
    kept = λ s r. (process_events-Keeps [] s.0.pending_events).kept s r;
  }

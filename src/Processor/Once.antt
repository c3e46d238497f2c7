-- ===== src/Processor/Once.antt =====
-- A provider event that is published twice.
use openevent_modules_im.Prelude.{
  ℕ, ◌≡◌, refl, ap, subst, true, contains, arith, if_ind, Result, ok, raise, ==_refl,
}
use openevent_modules_im.Prelude.Actions.{Action, and_then}
use openevent_modules_im.Models.{ProviderEvent}
use openevent_modules_im.State.Model.{InboundKey, inbound_key_eq, RuntimeState, add_to}
use openevent_modules_im.State.Results.{record_event_ms, mark_sync_record}
use openevent_modules_im.Processor.Model.{Worker, ProcessorState}
use openevent_modules_im.Processor.Outbound.{update_processor}
use openevent_modules_im.Processor.Inbound.{event_key, publish_new_event, publish_provider_event}

mark_sync_record-seen :
    (s : RuntimeState) (key : InboundKey) (channel_id event_ms : ℕ)
    → contains (mark_sync_record s key channel_id event_ms).inbound_seen key ≡ true
unfolding mark_sync_record record_event_ms add_to
mark_sync_record-seen s key channel_id event_ms = ground (arith, ==_refl key)

module _ {W : Type 0} (worker : Worker W) (channel_id : ℕ) (event : ProviderEvent) where
  abbrev IsSeen : ProcessorState W → Type 0
  IsSeen p = contains p.state.inbound_seen (event_key channel_id event) ≡ true

  seen_skips :
      (p : ProcessorState W) (w : W)
      → IsSeen p
      → publish_provider_event worker channel_id event (p, w) ≡ (ok tt, (p, w))
  unfolding publish_provider_event
  seen_skips p w h = rw h refl

  publish_provider_event-IsSeen :
      (p q : ProcessorState W) (w w' : W)
      → publish_provider_event worker channel_id event (p, w) ≡ (ok tt, (q, w'))
      → IsSeen q
  unfolding publish_provider_event
  publish_provider_event-IsSeen p q w w' =
      if_ind
        (λ (m : Action (ProcessorState W × W) (Unit {0})). m (p, w) ≡ (ok tt, (q, w')) → IsSeen q)
        (contains p.state.inbound_seen (event_key channel_id event)) _ _
        (λ seen h. subst IsSeen (ap (λ r. r.1.0) h) seen)
        λ fresh. let (r, (p', w1)) = publish_new_event worker channel_id event (p, w) in go r p' w1
    where
      go :
          (r : Result (Unit {0})) (p' : ProcessorState W) (w1 : W)
          → and_then {S = ProcessorState W × W} r
              (λ x. update_processor (λ p. record p {
                state =
                    mark_sync_record p.state (event_key channel_id event) channel_id event.event_ms;
              }))
              (p', w1)
            ≡ (ok tt, (q, w'))
          → IsSeen q
      go (ok x) p' w1 h =
          subst IsSeen (ap (λ r. r.1.0) h)
            (mark_sync_record-seen p'.state (event_key channel_id event) channel_id event.event_ms)
      go (raise e) p' w1 h = absurd (ground arith)

  -- A provider event that `_publish_provider_event` has published is not published again: a second
  -- call for it, on the state that the first one leaves, succeeds and changes neither the processor
  -- nor anything outside it.
  pub publish_provider_event-again :
      (p q : ProcessorState W) (w w' : W)
      → publish_provider_event worker channel_id event (p, w) ≡ (ok tt, (q, w'))
      → publish_provider_event worker channel_id event (q, w') ≡ (ok tt, (q, w'))
  publish_provider_event-again p q w w' h =
      seen_skips q w' (publish_provider_event-IsSeen p q w w' h)

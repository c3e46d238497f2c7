-- ===== src/Processor/Ticking.antt =====
-- The calls that a whole `tick` makes of the `RuntimeState`.
use openevent_modules_im.Prelude.{
  ℕ, zero, suc, ◌+◌, ◌%◌, ◌≡◌, refl, String, true, false, Option, none, some, [], ◌∷◌, string_eq,
  nat_eq, leb, length, list_eq, Dict, ok, raise,
}
use openevent_modules_im.Prelude.Keeping.{Keeps, result-Keeps, bind-Keeps, try-Keeps, if-Keeps}
use openevent_modules_im.Models.{ProviderEvent}
use openevent_modules_im.State.Model.{inbound_key_eq}
use openevent_modules_im.Processor.Model.{Worker, ProcessorState, MessagePuller, fatal_from}
use openevent_modules_im.Processor.Tick.{
  take_from, queue_event, collect_from, collect_all, collect_provider_messages, work, turns, tick,
}
use openevent_modules_im.Processor.Keeping.{
  HasReached, beyond-Keeps, update-Keeps, process_next_outbound_task-Keeps,
  process_next_provider_event-Keeps,
}

module _ {W : Type 0} (worker : Worker W) where
  queue_event-state :
      (e : Option ProviderEvent) (p : ProcessorState W) → (queue_event e p).state ≡ p.state
  unfolding queue_event
  queue_event-state none p = refl
  queue_event-state (some event) p = refl

  take_from-Keeps :
      (provider : String) (puller : MessagePuller W)
      → Keeps HasReached (take_from worker.now provider puller)
  unfolding take_from
  take_from-Keeps provider puller = record { kept = λ s r. r }

  collect_from-Keeps :
      (provider : String) (puller : MessagePuller W)
      → Keeps HasReached (collect_from worker provider puller)
  unfolding collect_from
  collect_from-Keeps provider puller =
      bind-Keeps HasReached _ _
        (try-Keeps HasReached _ _ (take_from-Keeps provider puller)
          (λ e. result-Keeps HasReached (raise (fatal_from e))))
        (λ event. update-Keeps (queue_event event) (queue_event-state event))

  collect_all-Keeps : (d : Dict String (MessagePuller W)) → Keeps HasReached (collect_all worker d)
  unfolding collect_all
  collect_all-Keeps [] = result-Keeps HasReached (ok tt)
  collect_all-Keeps ((provider, puller) ∷ pullers) = record {
    kept = λ s r.
        (if-Keeps HasReached (leb s.0.pending_event_limit (length s.0.pending_events)) _ _
            (result-Keeps HasReached (ok tt))
            (bind-Keeps HasReached _ _ (collect_from-Keeps provider puller)
              (λ x. collect_all-Keeps pullers))).kept
          s r;
  }

  collect_provider_messages-Keeps : Keeps HasReached (collect_provider_messages worker)
  unfolding collect_provider_messages
  collect_provider_messages-Keeps = record {
    kept = λ s r.
        (if-Keeps HasReached (leb s.0.pending_event_limit (length s.0.pending_events)) _ _
            (result-Keeps HasReached (ok tt)) (collect_all-Keeps s.0.message_pullers)).kept
          s r;
  }

  work-Keeps : (n : ℕ) → Keeps HasReached (work worker n)
  unfolding work
  work-Keeps zero = process_next_outbound_task-Keeps worker
  work-Keeps (suc n) = process_next_provider_event-Keeps worker

  turns-Keeps : (left offset : ℕ) → Keeps HasReached (turns worker left offset)
  unfolding turns
  turns-Keeps zero offset = result-Keeps HasReached (ok false)
  turns-Keeps (suc left) offset = record {
    kept = λ s r.
        (bind-Keeps HasReached _ _ (work-Keeps ((s.0.work_turn + offset) % 2)) λ done.
            if-Keeps HasReached done _ _
              (bind-Keeps HasReached _ _
                (update-Keeps (λ p. record p { work_turn = ((s.0.work_turn + offset) % 2 + 1) % 2 })
                  (λ p. refl))
                (λ x. result-Keeps HasReached (ok true)))
              (turns-Keeps left (offset + 1))).kept
          s r;
  }

  -- A tick changes the `RuntimeState` by calls of its operations only, each with what it asks for.
  pub tick-Keeps : Keeps HasReached (tick worker)
  unfolding tick
  tick-Keeps = bind-Keeps HasReached _ _ (beyond-Keeps worker.stop_event.is_set) λ stopped.
      if-Keeps HasReached stopped _ _ (result-Keeps HasReached (ok false))
        (bind-Keeps HasReached _ _ collect_provider_messages-Keeps (λ x. turns-Keeps 2 0))

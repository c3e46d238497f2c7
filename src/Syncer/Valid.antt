-- ===== src/Syncer/Valid.antt =====
-- The invariant of `RuntimeState` over the whole of `start`.
use openevent_modules_im.Prelude.{
  ℕ, ◌+◌, ◌≡◌, sym, subst, String, >>=-eq-ok, ok_injective, ap, ◌∙◌, Eq, true, [], ◌∷◌, string_eq,
  nat_eq, Dict, ok, raise, Error, error_class,
}
use openevent_modules_im.Prelude.Actions.{Action}
use openevent_modules_im.Prelude.Keeping.{Keeps, result-Keeps, bind-Keeps, try-Keeps, if-Keeps}
use openevent_modules_im.Mapping.Index.{P2PMappingIndex, build, channel_ids}
use openevent_modules_im.Models.{SyncerConfig}
use openevent_modules_im.State.Invariant.{IsValid}
use openevent_modules_im.State.Model.{RuntimeState, initial}
use openevent_modules_im.State.Closing.{Reach, start, Reach-IsValid}
use openevent_modules_im.Processor.Model.{ProcessorState, MessagePuller, new_processor, queue_sizes}
use openevent_modules_im.Processor.Keeping.{HasReached}
use openevent_modules_im.Syncer.Model.{
  Surroundings, Syncer, SyncerState, create_adapters, check_names, create_pullers, new_syncer,
}
use openevent_modules_im.Syncer.Polling.{first_poll}
use openevent_modules_im.Syncer.Run.{
  is_class_stopped, in_processor, in_world, stop_puller, stop_each, stop_syncer, run, start_failed,
  start_syncer,
}
use openevent_modules_im.Syncer.Starting.{
  done-Keeps, validate_channels-Keeps, start_message_pullers-Keeps, scan_history-Keeps,
}
use openevent_modules_im.Syncer.Rounds.{poll_rounds-Keeps}

module _ {W Bytes : Type 0} (syncer : Syncer W Bytes) where
  open syncer use {worker, around}

  run-Keeps : (rounds : ℕ) → Keeps HasReached (run syncer rounds)
  unfolding run
  run-Keeps rounds = bind-Keeps HasReached _ _ (validate_channels-Keeps syncer) λ x.
      bind-Keeps HasReached _ _ (scan_history-Keeps syncer) λ scan_end_seq.
        bind-Keeps HasReached _ _ (start_message_pullers-Keeps syncer)
          λ y. poll_rounds-Keeps syncer rounds (first_poll (scan_end_seq + 1))

  stop_puller-Keeps :
      (provider : String) (puller : MessagePuller W)
      → Keeps HasReached (stop_puller syncer provider puller)
  unfolding stop_puller
  stop_puller-Keeps provider puller = record { kept = λ s r. r }

  stop_each-Keeps : (d : Dict String (MessagePuller W)) → Keeps HasReached (stop_each syncer d)
  unfolding stop_each
  stop_each-Keeps [] = done-Keeps tt
  stop_each-Keeps ((provider, puller) ∷ pullers) =
      bind-Keeps HasReached _ _ (stop_puller-Keeps provider puller) λ x. stop_each-Keeps pullers

  -- The same of a whole syncer.
  abbrev SyncerReached : SyncerState W × W → Type 0
  SyncerReached (s, w) = Reach s.processor.state

  in_processor-Keeps :
      {A : Type 0} (m : Action (ProcessorState W × W) A)
      → Keeps HasReached m
      → Keeps SyncerReached (in_processor m)
  in_processor-Keeps m k = record { kept = λ (s, w) r. k.kept (s.processor, w) r }

  in_world-Keeps : {A : Type 0} (m : Action W A) → Keeps SyncerReached (in_world m)
  in_world-Keeps m = record { kept = λ s r. r }

  stop_syncer-Keeps : Keeps SyncerReached (stop_syncer syncer)
  unfolding stop_syncer
  stop_syncer-Keeps = record {
    kept = λ s r.
        (if-Keeps SyncerReached s.0.stopped _ _ (result-Keeps SyncerReached (ok tt)) (
            bind-Keeps SyncerReached (λ (s, w). (ok tt, (record s { stopped = true }, w))) _
              (record { kept = λ s r. r })
              λ x.
                bind-Keeps SyncerReached _ _ (in_world-Keeps around.set_stop)
                  λ y. in_processor-Keeps _ (stop_each-Keeps s.0.processor.message_pullers))).kept
          s r;
  }

  start_failed-Keeps : (e : Error) → Keeps SyncerReached (start_failed syncer e)
  unfolding start_failed
  start_failed-Keeps e =
      if-Keeps SyncerReached (is_class_stopped (error_class e)) _ _
        (bind-Keeps SyncerReached _ _ (in_world-Keeps worker.stop_event.is_set) λ stopped.
          if-Keeps SyncerReached stopped _ _ (result-Keeps SyncerReached (ok true))
            (result-Keeps SyncerReached (raise e)))
        (bind-Keeps SyncerReached _ _ stop_syncer-Keeps λ x. result-Keeps SyncerReached (raise e))

  start_syncer-Keeps : (rounds : ℕ) → Keeps SyncerReached (start_syncer syncer rounds)
  unfolding start_syncer
  start_syncer-Keeps rounds =
      try-Keeps SyncerReached _ _ (in_processor-Keeps _ (run-Keeps rounds)) start_failed-Keeps

new_processor-state :
    {W : Type 0} (mapping : P2PMappingIndex) (pullers : Dict String (MessagePuller W))
    (state : RuntimeState) (p : ProcessorState W)
    → new_processor mapping pullers state ≡ ok p
    → p.state ≡ state
unfolding new_processor
new_processor-state mapping pullers state p h =
    let (sizes, counted, made) = >>=-eq-ok (queue_sizes mapping (channel_ids mapping) []) _ h in
    sym (ap (λ p. p.state) (ok_injective made))

module _ {W Bytes : Type 0} ⦃eq : Eq Bytes⦄ (around : Surroundings W Bytes)
    (config : SyncerConfig) where
  new_syncer-Reach :
      (syncer : Syncer W Bytes) (s : SyncerState W)
      → new_syncer around config ≡ ok (syncer, s)
      → Reach s.processor.state
  unfolding new_syncer
  new_syncer-Reach syncer s h =
      let (mapping, built, h1) = >>=-eq-ok (build config) _ h in
      let (adapters, created, h2) =
        >>=-eq-ok (create_adapters around.lark_adapter config.providers) _ h1 in
      let (u, named, h3) = >>=-eq-ok (check_names adapters) _ h2 in
      let (p, made, h4) =
        >>=-eq-ok (new_processor mapping (create_pullers config.providers adapters) initial) _ h3 in
      subst Reach
        (sym (new_processor-state mapping (create_pullers config.providers adapters) initial p made)
          ∙ ap (λ r. r.1.processor.state) (ok_injective h4))
        start

  -- Once a syncer is constructed from a configuration and started, with any number of rounds of the
  -- loop that polls, its `RuntimeState` is valid, whether `start` returns or raises: it is one that
  -- calls of its operations lead to from the empty state, each with what the operation asks for.
  pub start_syncer-IsValid :
      (syncer : Syncer W Bytes) (s : SyncerState W)
      → new_syncer around config ≡ ok (syncer, s)
      → (rounds : ℕ) (w : W)
      → Reach (start_syncer syncer rounds (s, w)).1.0.processor.state
        × IsValid (start_syncer syncer rounds (s, w)).1.0.processor.state
  start_syncer-IsValid syncer s made rounds w =
      let reached =
        (start_syncer-Keeps syncer rounds).kept (s, w) (new_syncer-Reach syncer s made) in
      (reached, Reach-IsValid reached)

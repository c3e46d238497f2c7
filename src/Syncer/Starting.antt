-- ===== src/Syncer/Starting.antt =====
-- The calls that the start of the syncer makes of the `RuntimeState`.
use openevent_modules_im.Prelude.{
  ℕ, zero, suc, ◌-◌, String, not, Option, List, [], ◌∷◌, map, ◌==◌, string_eq, nat_eq, ltb, leb,
  Dict, ok, raise, Error, error, runtime_error, syncer_stopped,
}
use openevent_modules_im.Prelude.Actions.{pure, throw, of_result}
use openevent_modules_im.Prelude.Keeping.{Keeps, result-Keeps, bind-Keeps, if-Keeps}
use openevent_modules_im.OpenEvent.{Message, Channel}
use openevent_modules_im.Mapping.Index.{provider_session, channel_ids}
use openevent_modules_im.Processor.Model.{MessagePuller}
use openevent_modules_im.Processor.Keeping.{HasReached, beyond-Keeps}
use openevent_modules_im.Syncer.Model.{Syncer, bad_config, session_highwater}
use openevent_modules_im.Syncer.Startup.{
  loaded, check_description, has_all, validate_channel_members, validate_channel, validate_each,
  validate_channels, start_puller, start_each, start_message_pullers,
}
use openevent_modules_im.Syncer.History.{
  fetch_from, replay_page, history_page, history_pages, history_from, scan_history,
}
use openevent_modules_im.Syncer.Keeping.{
  entries_of-Keeps, process_history_message-Keeps, within-Keeps,
}

module _ {W : Type 0} where
  pub done-Keeps : {A : Type 0} (a : A) → Keeps (HasReached {W = W}) (pure a)
  done-Keeps a = result-Keeps HasReached (ok a)

  pub raise-Keeps : {A : Type 0} (e : Error) → Keeps (HasReached {W = W}) (throw {A = A} e)
  raise-Keeps e = result-Keeps HasReached (raise e)

module _ {W Bytes : Type 0} (syncer : Syncer W Bytes) where
  open syncer use {worker, around}

  validate_channel_members-Keeps :
      (c : ℕ) (channel : Channel) → Keeps HasReached (validate_channel_members syncer c channel)
  unfolding validate_channel_members
  validate_channel_members-Keeps c channel =
      if-Keeps HasReached (not (channel.visibility == around.visibility_private)) _ _
        (raise-Keeps bad_config)
        (bind-Keeps HasReached _ _ (within-Keeps _ (entries_of-Keeps c)) λ entries.
          if-Keeps HasReached
            (has_all channel.members
              (worker.worker_principal ∷ map (λ item. item.principal) entries))
            _ _ (done-Keeps tt) (raise-Keeps bad_config))

  validate_channel-Keeps :
      (c : ℕ) (channel : Channel) → Keeps HasReached (validate_channel syncer c channel)
  unfolding validate_channel
  validate_channel-Keeps c channel =
      if-Keeps HasReached (not (channel.protocol == "im.v1")) _ _ (raise-Keeps bad_config) (
        bind-Keeps HasReached (of_result (loaded (around.loads_text channel.description))) _
          (result-Keeps HasReached _)
          λ description. record {
            kept = λ s r.
                (bind-Keeps HasReached (of_result (provider_session s.0.mapping c)) _
                    (result-Keeps HasReached _)
                    λ session.
                      bind-Keeps HasReached
                        (of_result (check_description session.0 session.1 description)) _
                        (result-Keeps HasReached _)
                        λ x. validate_channel_members-Keeps c channel).kept
                  s r;
          })

  validate_each-Keeps : (ids : List ℕ) → Keeps HasReached (validate_each syncer ids)
  unfolding validate_each
  validate_each-Keeps [] = done-Keeps tt
  validate_each-Keeps (c ∷ ids) =
      bind-Keeps HasReached _ _ (beyond-Keeps worker.stop_event.is_set) λ stopped.
        if-Keeps HasReached stopped _ _ (raise-Keeps (error syncer_stopped)) (
          bind-Keeps HasReached _ _
            (beyond-Keeps
              (around.openevent.get_channel worker.worker_principal worker.worker_token c))
            λ channel.
              bind-Keeps HasReached _ _ (validate_channel-Keeps c channel)
                λ x. validate_each-Keeps ids)

  pub validate_channels-Keeps : Keeps HasReached (validate_channels syncer)
  unfolding validate_channels
  validate_channels-Keeps = record {
    kept = λ s r. (validate_each-Keeps (channel_ids s.0.mapping)).kept s r;
  }

  start_puller-Keeps :
      (provider : String) (puller : MessagePuller W) (h : Dict String (Option ℕ))
      → Keeps HasReached (start_puller syncer provider puller h)
  unfolding start_puller
  start_puller-Keeps provider puller h = record { kept = λ s r. r }

  start_each-Keeps : (d : Dict String (MessagePuller W)) → Keeps HasReached (start_each syncer d)
  unfolding start_each
  start_each-Keeps [] = done-Keeps tt
  start_each-Keeps ((provider, puller) ∷ pullers) = record {
    kept = λ s r.
        (bind-Keeps HasReached
            (of_result (session_highwater s.0.mapping s.0.state provider (channel_ids s.0.mapping)))
            _ (result-Keeps HasReached _)
            λ h.
              bind-Keeps HasReached _ _ (start_puller-Keeps provider puller h)
                λ x. start_each-Keeps pullers).kept
          s r;
  }

  pub start_message_pullers-Keeps : Keeps HasReached (start_message_pullers syncer)
  unfolding start_message_pullers
  start_message_pullers-Keeps = record {
    kept = λ s r. (start_each-Keeps s.0.message_pullers).kept s r;
  }

  pub fetch_from-Keeps : (from_seq : ℕ) → Keeps HasReached (fetch_from syncer from_seq)
  unfolding fetch_from
  fetch_from-Keeps from_seq = record { kept = λ s r. r }

  replay_page-Keeps :
      (scan_end_seq : ℕ) (ms : List (Message Bytes))
      → Keeps HasReached (replay_page syncer scan_end_seq ms)
  unfolding replay_page
  replay_page-Keeps scan_end_seq [] = done-Keeps tt
  replay_page-Keeps scan_end_seq (m ∷ ms) =
      if-Keeps HasReached (ltb scan_end_seq m.seq) _ _ (replay_page-Keeps scan_end_seq ms) (
        bind-Keeps HasReached _ _
          (within-Keeps _ (process_history_message-Keeps around.loads worker.worker_principal m))
          λ x. replay_page-Keeps scan_end_seq ms)

  history_pages-Keeps :
      (scan_end_seq left from_seq : ℕ)
      → Keeps HasReached (history_pages syncer scan_end_seq left from_seq)
  unfolding history_pages history_page
  history_pages-Keeps scan_end_seq zero from_seq = done-Keeps tt
  history_pages-Keeps scan_end_seq (suc left) from_seq =
      if-Keeps HasReached (ltb scan_end_seq from_seq) _ _ (done-Keeps tt) (
        bind-Keeps HasReached _ _ (beyond-Keeps worker.stop_event.is_set) λ stopped.
          if-Keeps HasReached stopped _ _ (raise-Keeps (error syncer_stopped)) (
            bind-Keeps HasReached _ _ (fetch_from-Keeps from_seq) λ response.
              bind-Keeps HasReached _ _ (replay_page-Keeps scan_end_seq response.messages) λ x.
                if-Keeps HasReached (leb response.next_seq from_seq) _ _
                  (raise-Keeps (error runtime_error))
                  (history_pages-Keeps scan_end_seq left response.next_seq)))

  pub scan_history-Keeps : Keeps HasReached (scan_history syncer)
  unfolding scan_history history_from
  scan_history-Keeps =
      bind-Keeps HasReached _ _
        (beyond-Keeps (around.openevent.get_status worker.worker_principal worker.worker_token))
        λ scan_end_seq. if-Keeps HasReached (scan_end_seq == 0) _ _ (done-Keeps 0) (
          bind-Keeps HasReached _ _ (history_pages-Keeps scan_end_seq (suc scan_end_seq - 1) 1)
            λ x. done-Keeps scan_end_seq)

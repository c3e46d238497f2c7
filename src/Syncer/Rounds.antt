-- ===== src/Syncer/Rounds.antt =====
-- The calls that the loop that polls makes of the `RuntimeState`.
use openevent_modules_im.Prelude.{
  ℕ, zero, suc, Bool, true, false, not, Option, none, some, is_some, List, [], ◌∷◌, string_eq,
  nat_eq, leb, Result, ok, raise, Error,
}
use openevent_modules_im.Prelude.Actions.{Action, pure, of_result}
use openevent_modules_im.Prelude.Keeping.{Keeps, result-Keeps, bind-Keeps, if-Keeps}
use openevent_modules_im.OpenEvent.{Message, FetchResponse}
use openevent_modules_im.Processor.Model.{ProcessorState, fatal_from}
use openevent_modules_im.Processor.Keeping.{HasReached, beyond-Keeps}
use openevent_modules_im.Processor.Ticking.{tick-Keeps}
use openevent_modules_im.Syncer.Model.{Syncer}
use openevent_modules_im.Syncer.History.{fetch_from}
use openevent_modules_im.Syncer.Polling.{
  Poll, is_transient_fetch_error, validated_next_seq, current_of, snapshot_of, process_each, sleep,
  end_round, take_prefetched, take_page, fetch_failed, fetch_round, poll_round, poll_rounds,
}
use openevent_modules_im.Syncer.Keeping.{process_live_message-Keeps, within-Keeps}
use openevent_modules_im.Syncer.Starting.{done-Keeps, raise-Keeps, fetch_from-Keeps}

module _ {W Bytes : Type 0} (syncer : Syncer W Bytes) where
  open syncer use {worker, around}

  process_each-Keeps : (ms : List (Message Bytes)) → Keeps HasReached (process_each syncer ms)
  unfolding process_each
  process_each-Keeps [] = done-Keeps tt
  process_each-Keeps (m ∷ ms) =
      bind-Keeps HasReached _ _
        (within-Keeps _ (process_live_message-Keeps around.loads worker.worker_principal m))
        λ x. process_each-Keeps ms

  sleep-Keeps : Keeps HasReached (sleep syncer)
  unfolding sleep
  sleep-Keeps =
      bind-Keeps HasReached _ _ (beyond-Keeps (worker.stop_event.wait worker.retry.idle_sleep_ms))
        λ x. done-Keeps tt

  end_round-Keeps :
      (snapshot : ℕ) (poll : Poll Bytes) → Keeps HasReached (end_round syncer snapshot poll)
  unfolding end_round
  end_round-Keeps snapshot poll =
      if-Keeps HasReached (leb poll.next_seq snapshot) _ _ (done-Keeps (some poll)) (
        bind-Keeps HasReached _ _ (tick-Keeps worker) λ worked.
          bind-Keeps HasReached _ _
            (if-Keeps HasReached poll.snapshot_had_messages _ _ (done-Keeps tt) sleep-Keeps)
            λ x.
              done-Keeps
                (some (record poll { snapshot_last_seq = none; snapshot_had_messages = false })))

  take_prefetched-Keeps :
      (last_seq : ℕ) (poll : Poll Bytes) → Keeps HasReached (take_prefetched syncer last_seq poll)
  unfolding take_prefetched
  take_prefetched-Keeps last_seq poll =
      bind-Keeps HasReached _ _ (process_each-Keeps poll.prefetched_messages)
        λ x. end_round-Keeps last_seq _

  take_page-Keeps :
      (response : FetchResponse Bytes) (poll : Poll Bytes)
      → Keeps HasReached (take_page syncer response poll)
  unfolding take_page
  take_page-Keeps response poll =
      bind-Keeps HasReached _ _
        (process_each-Keeps (current_of (snapshot_of response poll) response.messages))
        λ x.
          bind-Keeps HasReached (of_result (validated_next_seq response poll.next_seq)) _
            (result-Keeps HasReached _) λ next_seq. end_round-Keeps (snapshot_of response poll) _

  fetch_failed-Keeps :
      (poll : Poll Bytes) (e : Error) → Keeps HasReached (fetch_failed syncer poll e)
  unfolding fetch_failed
  fetch_failed-Keeps poll e =
      bind-Keeps HasReached _ _ (beyond-Keeps worker.stop_event.is_set) λ stopped.
        if-Keeps HasReached stopped _ _ (done-Keeps none) (
          if-Keeps HasReached (not (is_transient_fetch_error e)) _ _ (raise-Keeps (fatal_from e))
            (bind-Keeps HasReached _ _ sleep-Keeps λ x. done-Keeps (some poll)))

  fetched-Reach :
      (poll : Poll Bytes) (r : Result (FetchResponse Bytes)) (s : ProcessorState W × W)
      → HasReached s
      → HasReached
          (elim r as (λ x. Result (Option (Poll Bytes)) × (ProcessorState W × W)) [
            | ok response ↦ take_page syncer response poll s
            | raise e ↦ fetch_failed syncer poll e s
          ]).1
  fetched-Reach poll (ok response) s reached = (take_page-Keeps response poll).kept s reached
  fetched-Reach poll (raise e) s reached = (fetch_failed-Keeps poll e).kept s reached

  fetch_round-Keeps : (poll : Poll Bytes) → Keeps HasReached (fetch_round syncer poll)
  unfolding fetch_round
  fetch_round-Keeps poll = record {
    kept = λ s r.
        let (result, s') = fetch_from syncer poll.next_seq s in
        fetched-Reach poll result s' ((fetch_from-Keeps syncer poll.next_seq).kept s r);
  }

  unread-Keeps :
      (poll : Poll Bytes) (last_seq : Option ℕ)
      → Keeps HasReached
          (elim last_seq as (λ x. Action (ProcessorState W × W) (Option (Poll Bytes))) [
            | none ↦ fetch_round syncer poll
            | some n ↦ take_prefetched syncer n poll
          ])
  unread-Keeps poll none = fetch_round-Keeps poll
  unread-Keeps poll (some n) = take_prefetched-Keeps n poll

  poll_round-Keeps : (poll : Poll Bytes) → Keeps HasReached (poll_round syncer poll)
  unfolding poll_round
  poll_round-Keeps poll =
      bind-Keeps HasReached _ _ (beyond-Keeps worker.stop_event.is_set) λ stopped.
        if-Keeps HasReached stopped _ _ (done-Keeps none) (
          if-Keeps HasReached (is_some poll.snapshot_last_seq) _ _ (fetch_round-Keeps poll)
            (unread-Keeps poll poll.prefetched_last_seq))

  pub poll_rounds-Keeps :
      (rounds : ℕ) (poll : Poll Bytes) → Keeps HasReached (poll_rounds syncer rounds poll)
  unfolding poll_rounds
  poll_rounds-Keeps zero poll = done-Keeps false
  poll_rounds-Keeps (suc rounds) poll =
      bind-Keeps HasReached _ _ (poll_round-Keeps poll)
        λ next. continued next (λ poll'. poll_rounds-Keeps rounds poll')
    where
      continued :
          (next : Option (Poll Bytes))
          → ((poll' : Poll Bytes) → Keeps HasReached (poll_rounds syncer rounds poll'))
          → Keeps HasReached (elim next as (λ x. Action (ProcessorState W × W) Bool) [
            | none ↦ pure true
            | some poll' ↦ poll_rounds syncer rounds poll'
          ])
      continued none rest = done-Keeps true
      continued (some poll') rest = rest poll'

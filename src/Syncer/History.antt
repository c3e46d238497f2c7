-- ===== src/Syncer/History.antt =====
-- `_scan_history` of syncer.py. The `while` loop is given a number of pages that is enough for it,
-- because a page that does not advance is an error.
use openevent_modules_im.Prelude.{
  ℕ, zero, suc, ◌-◌, false, List, [], ◌∷◌, ◌==◌, nat_eq, if◌then◌else◌, ltb, leb, error,
  runtime_error, syncer_stopped,
}
use openevent_modules_im.Prelude.Actions.{Action, pure, throw, get_state, ◌>>=◌, ◌>>◌}
use openevent_modules_im.OpenEvent.{Message, FetchResponse}
use openevent_modules_im.Mapping.Index.{channel_ids}
use openevent_modules_im.Processor.Model.{ProcessorState}
use openevent_modules_im.Processor.Outbound.{beyond}
use openevent_modules_im.Syncer.Model.{Syncer}
use openevent_modules_im.Syncer.Messages.{process_history_message}
use openevent_modules_im.Syncer.Startup.{within}

module _ {W Bytes : Type 0} (syncer : Syncer W Bytes) where
  open syncer use {worker, around}

  -- `fetch(...)` of the channels of the mapping.
  unfoldable pub fetch_from : ℕ → Action (ProcessorState W × W) (FetchResponse Bytes)
  fetch_from from_seq = do
    (p, _) ← get_state
    beyond (
        around.openevent.fetch worker.worker_principal worker.worker_token from_seq 1000 false
          (channel_ids p.mapping))

  -- The loop over a page, up to `scan_end_seq`.
  unfoldable pub replay_page : ℕ → List (Message Bytes) → Action (ProcessorState W × W) (Unit {0})
  replay_page scan_end_seq [] = pure tt
  replay_page scan_end_seq (message ∷ messages) =
      if ltb scan_end_seq message.seq then replay_page scan_end_seq messages else do
        within (process_history_message around.loads worker.worker_principal message)
        replay_page scan_end_seq messages

  -- A page of the loop, with what follows it.
  unfoldable pub history_page :
      ℕ
      → (ℕ → Action (ProcessorState W × W) (Unit {0}))
      → ℕ
      → Action (ProcessorState W × W) (Unit {0})
  history_page scan_end_seq rest from_seq = if ltb scan_end_seq from_seq then pure tt else do
    stopped ← beyond worker.stop_event.is_set
    if stopped then throw (error syncer_stopped) else do
      response ← fetch_from from_seq
      replay_page scan_end_seq response.messages
      if leb response.next_seq from_seq then throw (error runtime_error) else rest response.next_seq

  -- The loop, with the number of pages that are left.
  unfoldable pub history_pages : ℕ → ℕ → ℕ → Action (ProcessorState W × W) (Unit {0})
  history_pages scan_end_seq zero from_seq = pure tt
  history_pages scan_end_seq (suc left) from_seq =
      history_page scan_end_seq (λ next_seq. history_pages scan_end_seq left next_seq) from_seq

  unfoldable pub history_from : ℕ → ℕ → Action (ProcessorState W × W) (Unit {0})
  history_from scan_end_seq from_seq =
      history_pages scan_end_seq (suc scan_end_seq - from_seq) from_seq

  unfoldable pub scan_history : Action (ProcessorState W × W) ℕ
  scan_history = do
    scan_end_seq ← beyond (around.openevent.get_status worker.worker_principal worker.worker_token)
    if scan_end_seq == 0 then pure 0 else do history_from scan_end_seq 1; pure scan_end_seq

-- ===== src/Syncer/Run.antt =====
-- `start` and `stop` of syncer.py. The lock of `stop` is left out.
use openevent_modules_im.Prelude.{
  ℕ, ◌+◌, String, Bool, true, false, [], ◌∷◌, if◌then◌else◌, string_eq, Dict, insert, ok, Error,
  error_class, Class, syncer_stopped,
}
use openevent_modules_im.Prelude.Actions.{Action, pure, throw, try_except, get_state, ◌>>=◌, ◌>>◌}
use openevent_modules_im.Puller.Pull.{stop}
use openevent_modules_im.Processor.Model.{ProcessorState, MessagePuller}
use openevent_modules_im.Syncer.Model.{Syncer, SyncerState}
use openevent_modules_im.Syncer.Startup.{validate_channels, start_message_pullers}
use openevent_modules_im.Syncer.History.{scan_history}
use openevent_modules_im.Syncer.Polling.{first_poll, poll_rounds}

-- `except SyncerStopped`
unfoldable pub is_class_stopped : Class → Bool
is_class_stopped syncer_stopped = true
is_class_stopped c = false

abbrev pub in_processor :
    {W A : Type 0} → Action (ProcessorState W × W) A → Action (SyncerState W × W) A
in_processor m (s, w) =
    let (result, (p, w')) = m (s.processor, w) in (result, (record s { processor = p }, w'))

abbrev pub in_world : {W A : Type 0} → Action W A → Action (SyncerState W × W) A
in_world m (s, w) = let (result, w') = m w in (result, (s, w'))

module _ {W Bytes : Type 0} (syncer : Syncer W Bytes) where
  open syncer use {worker, around}

  -- `puller.stop()`
  unfoldable pub stop_puller : String → MessagePuller W → Action (ProcessorState W × W) (Unit {0})
  stop_puller provider puller (p, w) =
      let (result, (state, w')) = stop puller.adapter worker.now puller.config (puller.state, w) in
      (
        result,
        (
          record p {
            message_pullers = insert provider (record puller { state = state }) p.message_pullers;
          },
          w',
        ),
      )

  unfoldable pub stop_each :
      Dict String (MessagePuller W) → Action (ProcessorState W × W) (Unit {0})
  stop_each [] = pure tt
  stop_each ((provider, puller) ∷ pullers) = do stop_puller provider puller; stop_each pullers

  unfoldable pub stop_syncer : Action (SyncerState W × W) (Unit {0})
  stop_syncer = do
    (s, _) ← get_state
    if s.stopped then pure tt else do
      (λ (s, w). (ok tt, (record s { stopped = true }, w)))
      in_world around.set_stop
      in_processor (stop_each s.processor.message_pullers)

  -- The `try` of `start`, with a number of rounds for the loop that polls.
  unfoldable pub run : ℕ → Action (ProcessorState W × W) Bool
  run rounds = do
    validate_channels syncer
    scan_end_seq ← scan_history syncer
    start_message_pullers syncer
    poll_rounds syncer rounds (first_poll (scan_end_seq + 1))

  -- The two handlers of `start`.
  unfoldable pub start_failed : Error → Action (SyncerState W × W) Bool
  start_failed e =
      if is_class_stopped (error_class e)
      then (do stopped ← in_world worker.stop_event.is_set; if stopped then pure true else throw e)
      else (do stop_syncer; throw e)

  unfoldable pub start_syncer : ℕ → Action (SyncerState W × W) Bool
  start_syncer rounds = try_except (in_processor (run rounds)) start_failed

-- ===== src/Syncer/Polling.antt =====
-- `_poll_events` and `_validated_next_seq` of syncer.py. A round of the `while` loop is a function of
-- what the loop keeps; the loop itself is run for a number of rounds, because it ends when the worker is
-- stopped only.
use openevent_modules_im.Prelude.{
  ℕ, zero, suc, max, Bool, true, false, ◌&&◌, ◌||◌, not, Option, none, some, is_some, List, [], ◌∷◌,
  ◌++◌, nat_eq, if◌then◌else◌, ltb, leb, Error, error, runtime_error, Result, ok, raise,
}
use openevent_modules_im.Prelude.Actions.{Action, pure, throw, of_result, ◌>>=◌, ◌>>◌}
use openevent_modules_im.OpenEvent.{Message, FetchResponse}
use openevent_modules_im.Client.Publish.{own_status_code}
use openevent_modules_im.Processor.Model.{ProcessorState, is_code_transient, fatal_from}
use openevent_modules_im.Processor.Outbound.{beyond}
use openevent_modules_im.Processor.Tick.{tick}
use openevent_modules_im.Syncer.Model.{Syncer}
use openevent_modules_im.Syncer.Messages.{process_live_message}
use openevent_modules_im.Syncer.Startup.{within}
use openevent_modules_im.Syncer.History.{fetch_from}

-- The local variables of the loop.
pub record Poll (Bytes : Type 0) : Type 0 where
  pub next_seq : ℕ
  pub snapshot_last_seq : Option ℕ
  pub snapshot_had_messages : Bool
  pub prefetched_messages : List (Message Bytes)
  pub prefetched_last_seq : Option ℕ

-- `_is_transient_fetch_error`
unfoldable pub is_transient_fetch_error : Error → Bool
is_transient_fetch_error e = is_code_transient (own_status_code e)

module _ {Bytes : Type 0} where
  abbrev pub first_poll : ℕ → Poll Bytes
  first_poll from_seq = record {
    next_seq = from_seq;
    snapshot_last_seq = none;
    snapshot_had_messages = false;
    prefetched_messages = [];
    prefetched_last_seq = none;
  }

  unfoldable pub validated_next_seq : FetchResponse Bytes → ℕ → Result ℕ
  validated_next_seq response from_seq =
      if leb response.next_seq response.last_seq && leb response.next_seq from_seq
      then raise (error runtime_error)
      else ok response.next_seq

  -- `bool(messages)`
  unfoldable pub is_any : List (Message Bytes) → Bool
  is_any [] = false
  is_any (m ∷ ms) = true

  -- The messages of a page up to `snapshot_last_seq`, and the others.
  unfoldable pub current_of : ℕ → List (Message Bytes) → List (Message Bytes)
  current_of snapshot_last_seq [] = []
  current_of snapshot_last_seq (m ∷ ms) =
      let rest = current_of snapshot_last_seq ms in
      if ltb snapshot_last_seq m.seq then rest else m ∷ rest

  unfoldable pub later_than : ℕ → List (Message Bytes) → List (Message Bytes)
  later_than snapshot_last_seq [] = []
  later_than snapshot_last_seq (m ∷ ms) =
      let rest = later_than snapshot_last_seq ms in
      if ltb snapshot_last_seq m.seq then m ∷ rest else rest

  -- What a page makes of the prefetched messages and of their `last_seq`.
  unfoldable pub prefetch : ℕ → FetchResponse Bytes → Poll Bytes → Poll Bytes
  prefetch snapshot response poll =
      let prefetched = poll.prefetched_messages ++ later_than snapshot response.messages in
      record poll {
        snapshot_last_seq = some snapshot;
        prefetched_messages = prefetched;
        prefetched_last_seq =
            if is_any prefetched
            then some
                (max (elim poll.prefetched_last_seq [ none ↦ 0 | some n ↦ n ]) response.last_seq)
            else poll.prefetched_last_seq;
      }

  -- `snapshot_last_seq`, or that of the page for the first page of a snapshot.
  unfoldable pub snapshot_of : FetchResponse Bytes → Poll Bytes → ℕ
  snapshot_of response poll = elim poll.snapshot_last_seq [ none ↦ response.last_seq | some n ↦ n ]

module _ {W Bytes : Type 0} (syncer : Syncer W Bytes) where
  open syncer use {worker, around}

  unfoldable pub process_each : List (Message Bytes) → Action (ProcessorState W × W) (Unit {0})
  process_each [] = pure tt
  process_each (m ∷ ms) = do
    within (process_live_message around.loads worker.worker_principal m)
    process_each ms

  unfoldable pub sleep : Action (ProcessorState W × W) (Unit {0})
  sleep = do beyond (worker.stop_event.wait worker.retry.idle_sleep_ms); pure tt

  -- The end of a round, once messages have been processed.
  unfoldable pub end_round : ℕ → Poll Bytes → Action (ProcessorState W × W) (Option (Poll Bytes))
  end_round snapshot poll = if leb poll.next_seq snapshot then pure (some poll) else do
    tick worker
    if poll.snapshot_had_messages then pure tt else sleep
    pure (some (record poll { snapshot_last_seq = none; snapshot_had_messages = false }))

  -- A round that takes over the prefetched messages.
  unfoldable pub take_prefetched :
      ℕ → Poll Bytes → Action (ProcessorState W × W) (Option (Poll Bytes))
  take_prefetched last_seq poll = do
    process_each poll.prefetched_messages
    end_round last_seq (record poll {
      snapshot_last_seq = some last_seq;
      prefetched_last_seq = none;
      snapshot_had_messages = is_any poll.prefetched_messages;
      prefetched_messages = [];
    })

  -- A round on a page.
  unfoldable pub take_page :
      FetchResponse Bytes → Poll Bytes → Action (ProcessorState W × W) (Option (Poll Bytes))
  take_page response poll = do
    let snapshot : ℕ = snapshot_of response poll
    let current : List (Message Bytes) = current_of snapshot response.messages
    process_each current
    next_seq ← of_result (validated_next_seq response poll.next_seq)
    end_round snapshot (record (prefetch snapshot response poll) {
      snapshot_had_messages = poll.snapshot_had_messages || is_any current;
      next_seq = next_seq;
    })

  -- The `except` around the fetch. `none` leaves the loop.
  unfoldable pub fetch_failed :
      Poll Bytes → Error → Action (ProcessorState W × W) (Option (Poll Bytes))
  fetch_failed poll e = do
    stopped ← beyond worker.stop_event.is_set
    if stopped
        then pure none
        else if not (is_transient_fetch_error e)
        then throw (fatal_from e)
        else do sleep; pure (some poll)

  unfoldable pub fetch_round : Poll Bytes → Action (ProcessorState W × W) (Option (Poll Bytes))
  fetch_round poll s =
      let (result, s') = fetch_from syncer poll.next_seq s in
      elim result [ ok response ↦ take_page response poll s' | raise e ↦ fetch_failed poll e s' ]

  -- A round of the loop.
  unfoldable pub poll_round : Poll Bytes → Action (ProcessorState W × W) (Option (Poll Bytes))
  poll_round poll = do
    stopped ← beyond worker.stop_event.is_set
    if stopped
        then pure none
        else if is_some poll.snapshot_last_seq
        then fetch_round poll
        else elim poll.prefetched_last_seq [
          | none ↦ fetch_round poll
          | some last_seq ↦ take_prefetched last_seq poll
        ]

  -- A number of rounds: whether the loop has ended.
  unfoldable pub poll_rounds : ℕ → Poll Bytes → Action (ProcessorState W × W) Bool
  poll_rounds zero poll = pure false
  poll_rounds (suc rounds) poll = do
    next ← poll_round poll
    elim next [ none ↦ pure true | some poll' ↦ poll_rounds rounds poll' ]

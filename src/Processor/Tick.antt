-- ===== src/Processor/Tick.antt =====
-- `tick` and `_collect_provider_messages` of loop.py.
use openevent_modules_im.Prelude.{
  ℕ, zero, suc, ◌+◌, ◌%◌, String, Bool, true, false, Option, none, some, [], ◌∷◌, ◌++◌,
  if◌then◌else◌, nat_eq, leb, length, Dict, insert, string_eq,
}
use openevent_modules_im.Prelude.Actions.{Action, pure, throw, try_except, get_state, ◌>>=◌, ◌>>◌}
use openevent_modules_im.Models.{ProviderEvent}
use openevent_modules_im.Adapter.{Clock}
use openevent_modules_im.Processor.Model.{Worker, MessagePuller, ProcessorState, fatal_from}
use openevent_modules_im.Processor.Outbound.{beyond, update_processor, process_next_outbound_task}
use openevent_modules_im.Processor.Inbound.{process_next_provider_event}
use openevent_modules_im.Puller.Pull.{take_message}

-- `puller.take_message()`, which leaves the puller changed where it raises, too.
unfoldable pub take_from :
    {W : Type 0}
    → Clock W
    → String
    → MessagePuller W
    → Action (ProcessorState W × W) (Option ProviderEvent)
take_from now provider puller (p, w) =
    let (result, (state, w')) = take_message puller.adapter now puller.config (puller.state, w) in
    (
      result,
      (
        record p {
          message_pullers = insert provider (record puller { state = state }) p.message_pullers;
        },
        w',
      ),
    )

unfoldable pub queue_event :
    {W : Type 0} → Option ProviderEvent → ProcessorState W → ProcessorState W
queue_event none p = p
queue_event (some event) p = record p { pending_events = p.pending_events ++ event ∷ [] }

module _ {W : Type 0} (worker : Worker W) where
  open worker use {stop_event, now}

  -- The body of the loop over the pullers.
  unfoldable pub collect_from : String → MessagePuller W → Action (ProcessorState W × W) (Unit {0})
  collect_from provider puller = do
    event ← try_except (take_from now provider puller) (λ e. throw (fatal_from e))
    update_processor (queue_event event)

  unfoldable pub collect_all :
      Dict String (MessagePuller W) → Action (ProcessorState W × W) (Unit {0})
  collect_all [] = pure tt
  collect_all ((provider, puller) ∷ pullers) = do
    (p, _) ← get_state
    if leb p.pending_event_limit (length p.pending_events)
        then pure tt
        else do collect_from provider puller; collect_all pullers

  unfoldable pub collect_provider_messages : Action (ProcessorState W × W) (Unit {0})
  collect_provider_messages = do
    (p, _) ← get_state
    if leb p.pending_event_limit (length p.pending_events)
        then pure tt
        else collect_all p.message_pullers

  -- `work[index]()`
  unfoldable pub work : ℕ → Action (ProcessorState W × W) Bool
  work zero = process_next_outbound_task worker
  work (suc n) = process_next_provider_event worker

  -- The rest of the loop of `tick`, with the number of offsets that are left.
  unfoldable pub turns : ℕ → ℕ → Action (ProcessorState W × W) Bool
  turns zero offset = pure false
  turns (suc left) offset = do
    (p, _) ← get_state
    let index : ℕ = (p.work_turn + offset) % 2
    done ← work index
    if done
        then (do update_processor (λ p. record p { work_turn = (index + 1) % 2 }); pure true)
        else turns left (offset + 1)

  unfoldable pub tick : Action (ProcessorState W × W) Bool
  tick = do
    stopped ← beyond stop_event.is_set
    if stopped then pure false else do collect_provider_messages; turns 2 0

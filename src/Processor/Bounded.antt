-- ===== src/Processor/Bounded.antt =====
-- The queue of pending provider events in loop.py.
use openevent_modules_im.Prelude.{
  suc, ◌≤◌, Option, none, some, [], ◌∷◌, leb, length, length-append, arith, if_ind, Dict, String,
  Result, ok, raise,
}
use openevent_modules_im.Prelude.Actions.{Action, and_then, ◌>>=◌}
use openevent_modules_im.Models.{ProviderEvent}
use openevent_modules_im.Processor.Model.{Worker, MessagePuller, ProcessorState, fatal_from}
use openevent_modules_im.Processor.Outbound.{update_processor}
use openevent_modules_im.Processor.Tick.{
  take_from, queue_event, collect_from, collect_all, collect_provider_messages,
}

-- At most as many events wait as the constructor allows.
abbrev pub IsBounded : {W : Type 0} → ProcessorState W → Type 0
IsBounded p = length p.pending_events ≤ p.pending_event_limit

module _ {W : Type 0} (worker : Worker W) where
  open worker use {now}

  queue_event-IsBounded :
      (o : Option ProviderEvent) (p : ProcessorState W)
      → suc (length p.pending_events) ≤ p.pending_event_limit
      → IsBounded (queue_event o p)
  unfolding queue_event
  queue_event-IsBounded none p h = omega arith
  queue_event-IsBounded (some e) p h = ground (arith, length-append p.pending_events (e ∷ []))

  collect_from-IsBounded :
      (provider : String) (puller : MessagePuller W) (p : ProcessorState W) (w : W)
      → suc (length p.pending_events) ≤ p.pending_event_limit
      → IsBounded (collect_from worker provider puller (p, w)).1.0
  unfolding collect_from take_from
  collect_from-IsBounded provider puller p w h = go (take_from now provider puller (p, w)).0
    where
      w' : W
      w' = (take_from now provider puller (p, w)).1.1

      q : ProcessorState W
      q = (take_from now provider puller (p, w)).1.0

      go :
          (r : Result (Option ProviderEvent))
          → IsBounded
              (((λ s. elim r as (λ x. Result (Option ProviderEvent) × (ProcessorState W × W)) [
                | ok a ↦ (ok a, s)
                | raise e ↦ (raise (fatal_from e), s)
              ])
                  >>= (λ event. update_processor (queue_event event)))
                (q, w')).1.0
      go (ok o) = queue_event-IsBounded o q h
      go (raise e) = omega arith

  collect_all-IsBounded :
      (pullers : Dict String (MessagePuller W)) (p : ProcessorState W) (w : W)
      → IsBounded p
      → IsBounded (collect_all worker pullers (p, w)).1.0
  unfolding collect_all
  collect_all-IsBounded [] p w h = h
  collect_all-IsBounded ((provider, puller) ∷ pullers) p w h =
      if_ind (λ (m : Action (ProcessorState W × W) (Unit {0})). IsBounded (m (p, w)).1.0)
        (leb p.pending_event_limit (length p.pending_events)) _ _ (λ full. h)
        λ room.
          let (r, (q, w')) = collect_from worker provider puller (p, w) in
          go r q w' (collect_from-IsBounded provider puller p w (ground arith))
            (collect_all-IsBounded pullers)
    where
      go :
          (r : Result (Unit {0})) (q : ProcessorState W) (w' : W)
          → IsBounded q
          → ((q : ProcessorState W) (w' : W)
              → IsBounded q
              → IsBounded (collect_all worker pullers (q, w')).1.0)
          → IsBounded
              (and_then {S = ProcessorState W × W} r (λ x. collect_all worker pullers) (q, w')).1.0
      go (ok x) q w' b rest = rest q w' b
      go (raise e) q w' b rest = b

  -- After `_collect_provider_messages`, also where it raises, at most as many provider events are
  -- pending as the processor allows, if that was so before.
  pub collect_provider_messages-IsBounded :
      (p : ProcessorState W) (w : W)
      → IsBounded p
      → IsBounded (collect_provider_messages worker (p, w)).1.0
  unfolding collect_provider_messages
  collect_provider_messages-IsBounded p w h =
      if_ind (λ (m : Action (ProcessorState W × W) (Unit {0})). IsBounded (m (p, w)).1.0)
        (leb p.pending_event_limit (length p.pending_events)) _ _ (λ full. h)
        (λ room. collect_all-IsBounded p.message_pullers p w h)

-- ===== src/Processor/Picking.antt =====
-- Which of the pending events `_process_next_provider_event` publishes.
use openevent_modules_im.Prelude.{
  ℕ, ◌≡◌, refl, sym, ap, subst, Bool, true, false, List, [], ◌∷◌, ◌++◌, All, if◌then◌else◌, if_ind,
  Result, ok, raise,
}
use openevent_modules_im.Prelude.Actions.{Action, pure, and_then, ◌>>◌}
use openevent_modules_im.Models.{ProviderEvent}
use openevent_modules_im.Mapping.Index.{channel_for_provider_session}
use openevent_modules_im.State.Requests.{channel_has_pending}
use openevent_modules_im.Processor.Model.{Worker, ProcessorState, fatal, on_key_error}
use openevent_modules_im.Processor.Outbound.{update_processor}
use openevent_modules_im.Processor.Inbound.{
  publish_provider_event, acknowledge_event, process_events, process_next_provider_event,
}

-- The channel of the event has a pending request, or has none.
pub record Channel {W : Type 0} (p : ProcessorState W) (busy : Bool) (e : ProviderEvent)
    : Type 0 where
  pub channel_id : ℕ
  pub mapped : channel_for_provider_session p.mapping e.provider e.session_id ≡ ok channel_id
  pub pending : channel_has_pending p.state channel_id ≡ busy

-- The first event whose channel has no pending request is gone from the queue.
pub record Picked {W : Type 0} (p : ProcessorState W) (events left : List ProviderEvent)
    : Type 0 where
  pub passed : List ProviderEvent
  pub event : ProviderEvent
  pub rest : List ProviderEvent
  pub before : events ≡ passed ++ event ∷ rest
  pub after : left ≡ passed ++ rest
  pub busy : All (Channel p true) passed
  pub free : Channel p false event

All-snoc :
    {A : Type 0} (P : A → Type 0) (xs : List A) (x : A) → All P xs → P x → All P (xs ++ x ∷ [])
All-snoc P [] x h k = (k, tt)
All-snoc P (y ∷ ys) x h k = (h.0, All-snoc P ys x h.1 k)

++-snoc : {A : Type 0} (xs : List A) (x : A) (ys : List A) → (xs ++ x ∷ []) ++ ys ≡ xs ++ x ∷ ys
++-snoc [] x ys = refl
++-snoc (y ∷ xs) x ys = ap (λ zs. y ∷ zs) (++-snoc xs x ys)

++-nil : {A : Type 0} (xs : List A) → xs ++ [] ≡ xs
++-nil [] = refl
++-nil (x ∷ xs) = ap (λ ys. x ∷ ys) (++-nil xs)

module _ {W : Type 0} (worker : Worker W) (p : ProcessorState W) where
  -- After the loop over `events`, where it returns.
  abbrev pub Picks : List ProviderEvent → Result Bool × (ProcessorState W × W) → Type 0
  Picks events (ok true, (q, w)) = Picked p events q.pending_events
  Picks events (ok false, (q, w)) = (q ≡ p) × All (Channel p true) events
  Picks events (raise e, (q, w)) = Unit {0}

  module _ (passed : List ProviderEvent) (event : ProviderEvent) (rest : List ProviderEvent) where
    abbrev finish : Action (ProcessorState W × W) Bool
    finish = do update_processor (λ p. record p { pending_events = passed ++ rest }); pure true

    published-Picks :
        (c : ℕ) (w : W)
        → All (Channel p true) passed
        → Channel p false event
        → Picks (passed ++ event ∷ rest) (
            (publish_provider_event worker c event >> (acknowledge_event worker event >> finish))
              (p, w))
    published-Picks c w busy free =
        let (r, (q, w')) = publish_provider_event worker c event (p, w) in acknowledged r q w'
      where
        finished :
            (r : Result (Unit {0})) (q : ProcessorState W) (w : W)
            → Picks
                (passed ++ event ∷ rest)
                (and_then {S = ProcessorState W × W} r (λ x. finish) (q, w))
        finished (raise e) q w = tt
        finished (ok x) q w = record {
          passed = passed;
          event = event;
          rest = rest;
          before = refl;
          after = refl;
          busy = busy;
          free = free;
        }

        acknowledged :
            (r : Result (Unit {0})) (q : ProcessorState W) (w : W)
            → Picks (passed ++ event ∷ rest) (
                and_then {S = ProcessorState W × W} r
                  (λ x. acknowledge_event worker event >> finish)
                  (q, w))
        acknowledged (raise e) q w = tt
        acknowledged (ok x) q w =
            let (r, (q', w')) = acknowledge_event worker event (q, w) in finished r q' w'

    pick : ℕ → Action (ProcessorState W × W) Bool
    pick c =
        if channel_has_pending p.state c
        then process_events worker (passed ++ event ∷ []) rest
        else publish_provider_event worker c event >> (acknowledge_event worker event >> finish)

    found-Picks :
        (r : Result ℕ) (w : W)
        → channel_for_provider_session p.mapping event.provider event.session_id ≡ r
        → All (Channel p true) passed
        → (All (Channel p true) (passed ++ event ∷ [])
            → Picks
                ((passed ++ event ∷ []) ++ rest)
                (process_events worker (passed ++ event ∷ []) rest (p, w)))
        → Picks
            (passed ++ event ∷ rest)
            (and_then {S = ProcessorState W × W} (on_key_error (λ e. fatal) r) pick (p, w))
    unfolding on_key_error pick
    found-Picks (raise e) w mapped busy more = tt
    found-Picks (ok c) w mapped busy more =
        if_ind
          (λ (m : Action (ProcessorState W × W) Bool). Picks (passed ++ event ∷ rest) (m (p, w)))
          (channel_has_pending p.state c) _ _
          (λ waits.
            subst
              (λ events. Picks events (process_events worker (passed ++ event ∷ []) rest (p, w)))
              (++-snoc passed event rest)
              (more (
                All-snoc (Channel p true) passed event busy
                  (record { channel_id = c; mapped = mapped; pending = waits }))))
          (λ free.
            published-Picks c w busy (record { channel_id = c; mapped = mapped; pending = free }))

  process_events-Picks :
      (passed events : List ProviderEvent) (w : W)
      → All (Channel p true) passed
      → Picks (passed ++ events) (process_events worker passed events (p, w))
  unfolding process_events pick
  process_events-Picks passed [] w busy =
      (refl, subst (All (Channel p true)) (sym (++-nil passed)) busy)
  process_events-Picks passed (event ∷ rest) w busy =
      found-Picks passed event rest
        (channel_for_provider_session p.mapping event.provider event.session_id) w refl busy
        (process_events-Picks (passed ++ event ∷ []) rest w)

  -- If `_process_next_provider_event` returns true, the first pending event whose channel has no
  -- pending request has left the queue, and no other; if it returns false, the channel of every
  -- pending event has a pending request, and the processor is as it was.
  pub process_next_provider_event-Picks :
      (w : W) → Picks p.pending_events (process_next_provider_event worker (p, w))
  unfolding process_next_provider_event
  process_next_provider_event-Picks w = process_events-Picks [] p.pending_events w tt

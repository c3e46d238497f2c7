-- ===== src/Puller/Offers.antt =====
-- What one session offers in a round of `take_message`.
use openevent_modules_im.Prelude.{
  ℕ, ◌≡◌, inl, inr, refl, sym, subst, String, Option, none, some, List, [], ◌∷◌, nat_eq, string_eq,
  arith, Option-cases, lookup, All, Error, Result, ok, raise, ok_injective,
}
use openevent_modules_im.Prelude.Actions.{Action}
use openevent_modules_im.Models.{ProviderEvent, ProviderSyncConfig}
use openevent_modules_im.Adapter.{ProviderAdapter, Clock}
use openevent_modules_im.Puller.Model.{
  HistoryScan, SessionPullState, PullerState, take_live, deliver,
}
use openevent_modules_im.Puller.Pull.{offer_live, offer_history}
use openevent_modules_im.Puller.Sound.{Of, Sound}
use openevent_modules_im.Puller.Delivery.{Taken, Took, deliver-Took, take_live_lem}

-- A session that has nothing in flight.
pub record Idle (provider : String) (limit : ℕ) (p : PullerState) (session_id : String)
    (st : SessionPullState) : Type 0 where
  pub sound : Sound provider limit p
  pub known : lookup session_id p.sessions ≡ some st
  pub free : st.in_flight ≡ none

module _ {W : Type 0} (adapter : ProviderAdapter W) (now : Clock W)
    (config : ProviderSyncConfig) where
  open adapter use {provider_name}
  open config use {event_queue_size}

  abbrev pub TookAt : PullerState → Result (Option ProviderEvent) × (PullerState × W) → Type 0
  TookAt p r = Took provider_name event_queue_size p r.0 r.1.0

  pub nothing :
      (p : PullerState) (w : W)
      → Sound provider_name event_queue_size p
      → TookAt p (ok none, (p, w))
  nothing p w v = record {
    sound = v;
    taken = λ o h. subst (λ a. Taken provider_name a p p) (ok_injective h) (λ j. refl);
  }

  pub failed :
      (p : PullerState) (e : Error) (q : PullerState) (w : W)
      → Sound provider_name event_queue_size q
      → TookAt p (raise e, (q, w))
  failed p e q w v = record { sound = v; taken = λ o h. absurd (ground arith) }

  module _ (index : ℕ) (p : PullerState) (session_id : String) (st : SessionPullState) (w : W) where
    abbrev pub offered : Result (Option ProviderEvent) × (PullerState × W)
    offered = offer_live adapter now config index session_id st (p, w)

    offered_reading :
        (scan : HistoryScan) → st.history_scan ≡ some scan → offered ≡ (ok none, (p, w))
    unfolding offer_live
    offered_reading scan h = ground arith

    offered_absent :
        st.history_scan ≡ none
        → (take_live session_id p.live_events).0 ≡ none
        → offered ≡ (ok none, (p, w))
    unfolding offer_live
    offered_absent h k = ground arith

    offered_event :
        (e : ProviderEvent)
        → st.history_scan ≡ none
        → (take_live session_id p.live_events).0 ≡ some e
        → offered ≡ (
          ok (some e),
          (
            deliver index session_id st e
                (record p { live_events = (take_live session_id p.live_events).1 }),
            w,
          ),
        )
    unfolding offer_live
    offered_event e h k = ground arith

    pub offer_live-Took : Idle provider_name event_queue_size p session_id st → TookAt p offered
    offer_live-Took i = elim (Option-cases st.history_scan) [
      | inr (scan, reading) ↦
          subst (TookAt p) (sym (offered_reading scan reading)) (nothing p w i.sound)
      | inl read ↦ elim (Option-cases (take_live session_id p.live_events).0) [
        | inl absent ↦ subst (TookAt p) (sym (offered_absent read absent)) (nothing p w i.sound)
        | inr (e, found) ↦
            let (q, its, rest, shorter) =
              take_live_lem provider_name event_queue_size _ session_id p.live_events i.sound.live
                found in
            subst (TookAt p) (sym (offered_event e read found)) (
              deliver-Took provider_name event_queue_size index p session_id st e _ (record {
                sound = i.sound;
                old = st;
                known = i.known;
                free = i.free;
                queued = (i.sound.each session_id st i.known).queued;
                its = (q.0, its);
                left = rest;
                bounded = omega (arith, shorter, i.sound.bounded);
              }))
      ]
    ]

    module _ (other : Action (PullerState × W) (Option ProviderEvent)) where
      offer_history-nil :
          st.history_events ≡ []
          → offer_history adapter now config index session_id st other (p, w) ≡ other (p, w)
      unfolding offer_history
      offer_history-nil h = ground arith

      offer_history-cons :
          (e : ProviderEvent) (rest : List ProviderEvent)
          → st.history_events ≡ e ∷ rest
          → offer_history adapter now config index session_id st other (p, w)
            ≡ (ok (some e), (deliver index session_id (record st { history_events = rest }) e p, w))
      unfolding offer_history
      offer_history-cons e rest h = ground arith

      pub offer_history-Took :
          Idle provider_name event_queue_size p session_id st
          → TookAt p (other (p, w))
          → TookAt p (offer_history adapter now config index session_id st other (p, w))
      offer_history-Took i t = go st.history_events refl
        where
          go :
              (es : List ProviderEvent)
              → st.history_events ≡ es
              → TookAt p (offer_history adapter now config index session_id st other (p, w))
          go [] h = subst (TookAt p) (sym (offer_history-nil h)) t
          go (e ∷ rest) h =
              let its =
                subst (All (Of provider_name session_id)) h
                  (i.sound.each session_id st i.known).queued in
              subst (TookAt p) (sym (offer_history-cons e rest h)) (
                deliver-Took provider_name event_queue_size index p session_id
                  (record st { history_events = rest }) e p.live_events
                  (record {
                    sound = i.sound;
                    old = st;
                    known = i.known;
                    free = i.free;
                    queued = its.1;
                    its = its.0;
                    left = i.sound.live;
                    bounded = i.sound.bounded;
                  }))

-- ===== src/Puller/Polling.antt =====
-- What a round of `take_message` does in a session that has no event in flight.
use openevent_modules_im.Prelude.{
  ℕ, ◌≡◌, ◌+◌, ◌%◌, refl, ◌∙◌, String, ◌&&◌, Option, none, some, length, nat_eq, string_eq, arith,
  if_ind, lookup, insert, lookup-insert, is_some, Result, ok, raise, leb,
}
use openevent_modules_im.Prelude.Actions.{Action, ◌>>=◌, ◌>>◌, and_then}
use openevent_modules_im.Models.{ProviderEvent, ProviderSyncConfig, HistoryPage}
use openevent_modules_im.Adapter.{ProviderAdapter, Clock}
use openevent_modules_im.Puller.Model.{HistoryScan, SessionPullState, PullerState, is_transient}
use openevent_modules_im.Puller.Pull.{
  update_puller, on_session, receive_page, fetch_history_page, offer_live, offer_history,
  poll_session,
}
use openevent_modules_im.Puller.Sound.{
  flight, SoundSession, Sound, insert-Sound, accept_page-SoundSession,
}
use openevent_modules_im.Puller.Quiet.{Quiet}
use openevent_modules_im.Puller.Delivery.{Took-Quiet}
use openevent_modules_im.Puller.Offers.{Idle, TookAt, failed, offer_live-Took, offer_history-Took}

module _ {W : Type 0} (adapter : ProviderAdapter W) (now : Clock W)
    (config : ProviderSyncConfig) where
  open adapter use {provider_name}
  open config use {event_queue_size}

  receive_page-SoundSession :
      (session_id : String) (now_ms : ℕ) (scan : HistoryScan) (st : SessionPullState)
      (fetched : Result HistoryPage)
      → SoundSession provider_name session_id st
      → SoundSession provider_name session_id
          (receive_page adapter now config session_id now_ms scan st fetched).1
        × ((receive_page adapter now config session_id now_ms scan st fetched).1.in_flight
            ≡ st.in_flight)
  unfolding receive_page
  receive_page-SoundSession session_id now_ms scan st (ok page) s =
      accept_page-SoundSession provider_name session_id scan page st s
  receive_page-SoundSession session_id now_ms scan st (raise e) s =
      if_ind
        (λ (r : Result (Unit {0}) × SessionPullState).
          SoundSession provider_name session_id r.1 × (r.1.in_flight ≡ st.in_flight))
        (is_transient e) _ _ (λ transient. (record { queued = s.queued; flying = s.flying }, refl))
        (λ permanent. (s, refl))

  fetch-SoundSession :
      (session_id : String) (now_ms : ℕ) (st : SessionPullState) (w : W)
      → SoundSession provider_name session_id st
      → SoundSession provider_name session_id
          (fetch_history_page adapter now config session_id now_ms (st, w)).1.0
        × ((fetch_history_page adapter now config session_id now_ms (st, w)).1.0.in_flight
            ≡ st.in_flight)
  unfolding fetch_history_page
  fetch-SoundSession session_id now_ms st w s = go st.history_scan
    where
      after : Option HistoryScan → Result (Unit {0}) × (SessionPullState × W)
      after o = elim o [
        | none ↦ (ok tt, (st, w))
        | some scan ↦
            let (fetched, w') =
              adapter.fetch_history_page session_id scan.start_ms scan.end_ms scan.page_token w in
            let (result, state') =
              receive_page adapter now config session_id now_ms scan st fetched in
            (result, (state', w'))
      ]

      go :
          (o : Option HistoryScan)
          → SoundSession provider_name session_id (after o).1.0
            × ((after o).1.0.in_flight ≡ st.in_flight)
      go none = (s, refl)
      go (some scan) = receive_page-SoundSession session_id now_ms scan st _ s

  -- A session's state is replaced by one with the same event in flight.
  replaced_Quiet :
      (p : PullerState) (session_id : String) (old st : SessionPullState) (cursor : ℕ)
      → Sound provider_name event_queue_size p
      → lookup session_id p.sessions ≡ some old
      → SoundSession provider_name session_id st
      → st.in_flight ≡ old.in_flight
      → Quiet provider_name event_queue_size p
          (record p { sessions = insert session_id st p.sessions; session_cursor = cursor })
  unfolding flight
  replaced_Quiet p session_id old st cursor v known s same = record {
    sound = λ u.
        let i = insert-Sound provider_name event_queue_size p session_id old st v known s in
        record { each = i.each; rotation = i.rotation; live = i.live; bounded = i.bounded };
    flights = λ j. ground (arith, known, same, lookup-insert j session_id st p.sessions);
  }

  module _ (now_ms index : ℕ) (session_id : String) where
    abbrev settled :
        Result (Unit {0}) → SessionPullState → Action (PullerState × W) (Option ProviderEvent)
    settled r st' (p, w) =
        let p' = record p { sessions = insert session_id st' p.sessions } in
        let (result, after) : Result SessionPullState × (PullerState × W) = elim r [
          | ok _ ↦ (ok st', (p', w))
          | raise e ↦ (raise e, (p', w))
        ] in
        and_then result
          (λ st. do
            update_puller (λ p. record p { session_cursor = (index + 1) % length p.session_order })
            offer_history adapter now config index session_id st
                (offer_live adapter now config index session_id st))
          after

    settled-Took :
        (p : PullerState) (st st' : SessionPullState) (r : Result (Unit {0})) (w : W)
        → Idle provider_name event_queue_size p session_id st
        → SoundSession provider_name session_id st'
        → st'.in_flight ≡ st.in_flight
        → TookAt adapter now config p (settled r st' (p, w))
    settled-Took p st st' (raise e) w i s same =
        failed adapter now config p e _ w
          (insert-Sound provider_name event_queue_size p session_id st st' i.sound i.known s)
    settled-Took p st st' (ok x) w i s same =
        Took-Quiet provider_name event_queue_size p q _ _ quiet (
          offer_history-Took adapter now config index q session_id st' w
            (offer_live adapter now config index session_id st') idle
            (offer_live-Took adapter now config index q session_id st' w idle))
      where
        q : PullerState
        q = record p {
          sessions = insert session_id st' p.sessions;
          session_cursor = (index + 1) % length p.session_order;
        }

        quiet : Quiet provider_name event_queue_size p q
        quiet = replaced_Quiet p session_id st st' _ i.sound i.known s same

        idle : Idle provider_name event_queue_size q session_id st'
        idle = record {
          sound = quiet.sound i.sound;
          known = ground (arith, lookup-insert session_id session_id st' p.sessions);
          free = same ∙ i.free;
        }

    fetched-Took :
        (p : PullerState) (st : SessionPullState) (w : W)
        → Idle provider_name event_queue_size p session_id st
        → TookAt adapter now config p (
            (do
              st' ←
                  on_session session_id st (fetch_history_page adapter now config session_id now_ms)
              update_puller
                  (λ p. record p { session_cursor = (index + 1) % length p.session_order })
              offer_history adapter now config index session_id st'
                  (offer_live adapter now config index session_id st'))
              (p, w))
    fetched-Took p st w i =
        let (s, same) =
          fetch-SoundSession session_id now_ms st w (i.sound.each session_id st i.known) in
        settled-Took p st _ _ _ i s same

    pub poll_session-Took :
        (p : PullerState) (st : SessionPullState) (w : W)
        → Idle provider_name event_queue_size p session_id st
        → TookAt adapter now config p
            (poll_session adapter now config now_ms index session_id st (p, w))
    unfolding poll_session
    poll_session-Took p st w i = offer_history-Took adapter now config index p session_id st w _ i (
        if_ind
          (λ (m : Action (PullerState × W) (Option ProviderEvent)).
            TookAt adapter now config p (m (p, w)))
          (is_some st.history_scan && leb st.next_history_at_ms now_ms) _ _
          (λ due. fetched-Took p st w i)
          (λ later. offer_live-Took adapter now config index p session_id st w i))

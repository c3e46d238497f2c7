-- ===== src/Puller/Pull.antt =====
-- The methods of `ProviderMessagePuller` that call the adapter. The state is the puller and the
-- world; both outlive an exception.
use openevent_modules_im.Prelude.{
  ℕ, zero, suc, ◌+◌, ◌%◌, max, String, true, false, ◌&&◌, Option, none, some, List, [], ◌∷◌, ◌++◌,
  map, ◌==◌, length, if◌then◌else◌, ltb, leb, nat_eq, string_eq, Dict, lookup, insert, is_some,
  Result, ok, raise, error, caused_by, runtime_error, key_error, value_error,
}
use openevent_modules_im.Prelude.Actions.{Action, pure, throw, ◌>>=◌, ◌>>◌, get_state}
use openevent_modules_im.Models.{ProviderEvent, ProviderSyncConfig, HistoryPage}
use openevent_modules_im.Adapter.{ProviderAdapter, Clock}
use openevent_modules_im.Puller.Model.{
  HistoryScan, SessionPullState, PullerState, runtime, is_transient, handoff, map_values,
  sorted_str, new_sessions, take_live, deliver,
}

-- `xs[i]`
unfoldable pub element {ℓ} : {A : Type ℓ} → List A → ℕ → Option A
element [] i = none
element (x ∷ xs) zero = some x
element (x ∷ xs) (suc i) = element xs i

-- The loop over a page: the events up to the first one of another provider or session.
unfoldable pub append_events :
    String
    → String
    → List ProviderEvent
    → List ProviderEvent
    → Result (Unit {0}) × List ProviderEvent
append_events provider session_id queue [] = (ok tt, queue)
append_events provider session_id queue (e ∷ es) =
    let rest = append_events provider session_id (queue ++ e ∷ []) es in
    if e.provider == provider && e.session_id == session_id then rest else (raise runtime, queue)

-- The end of `_fetch_history_page`, after the events of a page are queued.
unfoldable pub finish_page : HistoryScan → Option String → SessionPullState → SessionPullState
finish_page scan none state = record state {
  next_history_at_ms = 0;
  history_highwater_ms =
      some (max (elim state.history_highwater_ms [ none ↦ 0 | some v ↦ v ]) scan.end_ms);
  history_scan = none;
}
finish_page scan (some token) state = record state {
  next_history_at_ms = 0;
  history_scan = some (record scan { page_token = some token });
}

unfoldable pub settle_page :
    Result (Unit {0})
    → HistoryScan
    → Option String
    → SessionPullState
    → Result (Unit {0}) × SessionPullState
settle_page (ok _) scan token state = (ok tt, finish_page scan token state)
settle_page (raise e) scan token state = (raise e, state)

unfoldable pub accept_page :
    String
    → String
    → HistoryScan
    → HistoryPage
    → SessionPullState
    → Result (Unit {0}) × SessionPullState
accept_page provider session_id scan page state =
    let (checked, queue) = append_events provider session_id state.history_events page.events in
    settle_page checked scan page.next_page_token (record state { history_events = queue })

-- A call of the adapter or the clock.
abbrev pub outside : {W A : Type 0} → Action W A → Action (PullerState × W) A
outside m (p, w) = let (result, w') = m w in (result, (p, w'))

abbrev pub update_puller :
    {W : Type 0} → (PullerState → PullerState) → Action (PullerState × W) (Unit {0})
update_puller f (p, w) = (ok tt, (f p, w))

-- Runs on the state of a session that `p.sessions` holds.
abbrev pub on_session :
    {W : Type 0}
    → String
    → SessionPullState
    → Action (SessionPullState × W) (Unit {0})
    → Action (PullerState × W) SessionPullState
on_session session_id state m (p, w) =
    let (result, (state', w')) = m (state, w) in
    let p' = record p { sessions = insert session_id state' p.sessions } in
    elim result [ ok _ ↦ (ok state', (p', w')) | raise e ↦ (raise e, (p', w')) ]

module _ {W : Type 0} (adapter : ProviderAdapter W) (now : Clock W)
    (config : ProviderSyncConfig) where
  open adapter use {provider_name}

  unfoldable pub raise_stream_error : Action (PullerState × W) (Unit {0})
  raise_stream_error = do
    failure ← outside adapter.event_stream_error
    elim failure [ none ↦ pure tt | some e ↦ throw (caused_by runtime_error e) ]

  unfoldable pub start : Dict String (Option ℕ) → Action (PullerState × W) (Unit {0})
  start session_highwater_ms = do
    (p, _) ← get_state
    if p.started
        then pure tt
        else if leb (length session_highwater_ms) 0
        then throw (error value_error)
        else do
          outside (adapter.start_event_stream (map (λ e. e.0) session_highwater_ms))
          now_ms ← outside now
          let sessions = new_sessions config now_ms session_highwater_ms
          update_puller (λ p. record p {
            sessions = sessions;
            session_order = sorted_str (map (λ e. e.0) sessions);
          })
          generation ← outside adapter.event_stream_generation
          update_puller (λ p. record p { stream_generation = generation; started = true })

  unfoldable pub stop : Action (PullerState × W) (Unit {0})
  stop = do outside adapter.stop_event_stream; update_puller (λ p. record p { started = false })

  unfoldable pub schedule_reconnect_handoff : Action (PullerState × W) (Unit {0})
  schedule_reconnect_handoff = do
    generation ← outside adapter.event_stream_generation
    (p, _) ← get_state
    if ltb generation p.stream_generation
        then throw runtime
        else if generation == p.stream_generation
        then pure tt
        else do
          update_puller (λ p. record p { stream_generation = generation })
          now_ms ← outside now
          update_puller (λ p. record p { sessions = map_values (handoff config now_ms) p.sessions })

  unfoldable pub collect_live_event : Action (PullerState × W) (Unit {0})
  collect_live_event = do
    (p, _) ← get_state
    if leb config.event_queue_size (length p.live_events) then pure tt else do
      taken ← outside adapter.take_event
      elim taken [
        | none ↦ pure tt
        | some event ↦
            if event.provider == provider_name && is_some (lookup event.session_id p.sessions)
            then update_puller (λ p. record p { live_events = p.live_events ++ event ∷ [] })
            else throw runtime
      ]

  -- `_fetch_history_page`, on the state of the session, after the adapter's call.
  unfoldable pub receive_page :
      String
      → ℕ
      → HistoryScan
      → SessionPullState
      → Result HistoryPage
      → Result (Unit {0}) × SessionPullState
  receive_page session_id now_ms scan state (ok page) =
      accept_page provider_name session_id scan page state
  receive_page session_id now_ms scan state (raise e) =
      if is_transient e
      then (ok tt, record state { next_history_at_ms = now_ms + config.history_retry_delay_ms })
      else (raise e, state)

  unfoldable pub fetch_history_page : String → ℕ → Action (SessionPullState × W) (Unit {0})
  fetch_history_page session_id now_ms (state, w) = elim state.history_scan [
    | none ↦ (ok tt, (state, w))
    | some scan ↦
        let (fetched, w') =
          adapter.fetch_history_page session_id scan.start_ms scan.end_ms scan.page_token w in
        let (result, state') = receive_page session_id now_ms scan state fetched in
        (result, (state', w'))
  ]

  -- The end of a round of `take_message`: a session whose history is read delivers a live event.
  unfoldable pub offer_live :
      ℕ → String → SessionPullState → Action (PullerState × W) (Option ProviderEvent)
  offer_live index session_id state (p, w) = elim state.history_scan [
    | some _ ↦ (ok none, (p, w))
    | none ↦
        let (found, rest) = take_live session_id p.live_events in
        elim found [
          | none ↦ (ok none, (p, w))
          | some event ↦ (
            ok (some event),
            (deliver index session_id state event (record p { live_events = rest }), w),
          )
        ]
  ]

  -- `popleft` and `_deliver` if the session has history events, else `other`.
  unfoldable pub offer_history :
      ℕ
      → String
      → SessionPullState
      → Action (PullerState × W) (Option ProviderEvent)
      → Action (PullerState × W) (Option ProviderEvent)
  offer_history index session_id state other = elim state.history_events [
    | [] ↦ other
    | event ∷ rest ↦ do
      update_puller (deliver index session_id (record state { history_events = rest }) event)
      pure (some event)
  ]

  -- A round for a session with no event in flight.
  unfoldable pub poll_session :
      ℕ → ℕ → String → SessionPullState → Action (PullerState × W) (Option ProviderEvent)
  poll_session now_ms index session_id state = offer_history index session_id state (
      if is_some state.history_scan && leb state.next_history_at_ms now_ms
      then (do
        state' ← on_session session_id state (fetch_history_page session_id now_ms)
        update_puller (λ p. record p { session_cursor = (index + 1) % length p.session_order })
        offer_history index session_id state' (offer_live index session_id state'))
      else offer_live index session_id state)

  -- A round of the loop of `take_message`; `none` is `continue`, or the end of the body.
  unfoldable pub visit_session :
      ℕ
      → ℕ
      → String
      → SessionPullState
      → Option ProviderEvent
      → Action (PullerState × W) (Option ProviderEvent)
  visit_session now_ms index session_id state (some in_flight) = pure none
  visit_session now_ms index session_id state none = poll_session now_ms index session_id state

  unfoldable pub visit_known :
      ℕ → ℕ → String → Option SessionPullState → Action (PullerState × W) (Option ProviderEvent)
  visit_known now_ms index session_id none = throw (error key_error)
  visit_known now_ms index session_id (some state) =
      visit_session now_ms index session_id state state.in_flight

  unfoldable pub visit : ℕ → ℕ → Action (PullerState × W) (Option ProviderEvent)
  visit now_ms offset = do
    (p, _) ← get_state
    let index : ℕ = (p.session_cursor + offset) % length p.session_order
    elim (element p.session_order index) [
      | none ↦ throw (error key_error)
      | some session_id ↦ visit_known now_ms index session_id (lookup session_id p.sessions)
    ]

  -- The `for` loop, with the number of rounds that are left.
  unfoldable pub rounds : ℕ → ℕ → ℕ → Action (PullerState × W) (Option ProviderEvent)
  rounds zero offset now_ms = pure none
  rounds (suc left) offset now_ms = do
    taken ← visit now_ms offset
    elim taken [ some event ↦ pure (some event) | none ↦ rounds left (offset + 1) now_ms ]

  -- What `take_message` does once it has seen that the puller is started.
  unfoldable pub refresh : Action (PullerState × W) (Unit {0})
  refresh = do
    raise_stream_error
    schedule_reconnect_handoff
    collect_live_event
    raise_stream_error
    schedule_reconnect_handoff

  unfoldable pub take_next : Action (PullerState × W) (Option ProviderEvent)
  take_next = do now_ms ← outside now; (q, _) ← get_state; rounds (length q.session_order) 0 now_ms

  unfoldable pub take_message : Action (PullerState × W) (Option ProviderEvent)
  take_message = do (p, _) ← get_state; if p.started then (do refresh; take_next) else throw runtime

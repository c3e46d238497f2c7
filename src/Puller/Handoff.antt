-- ===== src/Puller/Handoff.antt =====
-- The scans that a reconnect gives to the sessions.
use openevent_modules_im.Prelude.{
  ℕ, ◌≡◌, ◌-◌, min, max, String, Option, none, some, nat_eq, string_eq, lookup,
}
use openevent_modules_im.Models.{ProviderSyncConfig}
use openevent_modules_im.Puller.Model.{HistoryScan, SessionPullState, PullerState}

-- From when on the history is to be read, by the last confirmed event and the end of the last finished
-- scan: `history_overlap_ms` before the later of the two, if that is not later than now, or
-- `history_lookback_ms` before now, if there is neither. On ℕ, `a - b` is `max(0, a - b)`.
abbrev pub needed_from : ProviderSyncConfig → ℕ → Option ℕ → Option ℕ → ℕ
needed_from config now_ms none none = now_ms - config.history_lookback_ms
needed_from config now_ms none (some h) = min h now_ms - config.history_overlap_ms
needed_from config now_ms (some c) none = min c now_ms - config.history_overlap_ms
needed_from config now_ms (some c) (some h) = min (max c h) now_ms - config.history_overlap_ms

-- Not later than an unfinished scan starts.
abbrev pub not_after : Option HistoryScan → ℕ → ℕ
not_after none n = n
not_after (some scan) n = min n scan.start_ms

-- A scan up to now, from its first page on, that starts where it is needed and leaves out nothing of
-- an unfinished scan.
pub record Covers (config : ProviderSyncConfig) (now_ms : ℕ) (st after : SessionPullState)
    : Type 0 where
  pub scan : HistoryScan
  pub scheduled : after.history_scan ≡ some scan
  pub first_page : scan.page_token ≡ none
  pub to_now : scan.end_ms ≡ now_ms
  pub from_needed :
      scan.start_ms
      ≡ not_after st.history_scan
          (needed_from config now_ms st.confirmed_event_ms st.history_highwater_ms)
  pub due : after.next_history_at_ms ≡ 0
  pub same_confirmed : after.confirmed_event_ms ≡ st.confirmed_event_ms
  pub same_highwater : after.history_highwater_ms ≡ st.history_highwater_ms
  pub same_events : after.history_events ≡ st.history_events
  pub same_flight : after.in_flight ≡ st.in_flight

-- The puller after a reconnect: each session has such a scan, and no session is added or lost.
pub record Reconnected (config : ProviderSyncConfig) (generation now_ms : ℕ) (p q : PullerState)
    : Type 0 where
  pub known_generation : q.stream_generation ≡ generation
  pub same_order : q.session_order ≡ p.session_order
  pub same_cursor : q.session_cursor ≡ p.session_cursor
  pub same_live : q.live_events ≡ p.live_events
  pub each :
      (session_id : String) (st : SessionPullState)
      → lookup session_id p.sessions ≡ some st
      → (after : SessionPullState) × (lookup session_id q.sessions ≡ some after)
        × Covers config now_ms st after
  pub others :
      (session_id : String)
      → lookup session_id p.sessions ≡ none
      → lookup session_id q.sessions ≡ none

-- ===== src/Puller/Model.antt =====
-- The data of im_p2p_syncer/provider_messages.py, and the parts of `ProviderMessagePuller` that
-- call no adapter.
use Prim.Native.Nat.{Ordering}
use Prim.Native.String
use openevent_modules_im.Prelude.{
  ℕ, ◌+◌, ◌-◌, ◌%◌, min, max, String, Bool, true, false, ◌&&◌, Option, none, some, List, [], ◌∷◌,
  ◌==◌, length, if◌then◌else◌, ltb, nat_eq, string_eq, Dict, lookup, insert, Result, ok, raise,
  Error, error, caused_by, runtime_error, transient_provider, ◌>>◌, require,
}
use openevent_modules_im.Models.{ProviderEvent, ProviderSyncConfig}

pub record HistoryScan : Type 0 where
  pub start_ms : ℕ
  pub end_ms : ℕ
  pub page_token : Option String

pub record SessionPullState : Type 0 where
  pub confirmed_event_ms : Option ℕ
  pub history_highwater_ms : Option ℕ
  pub history_scan : Option HistoryScan
  pub history_events : List ProviderEvent
  pub in_flight : Option ProviderEvent
  pub next_history_at_ms : ℕ

-- The fields of a `ProviderMessagePuller` that change.
pub record PullerState : Type 0 where
  pub sessions : Dict String SessionPullState
  pub session_order : List String
  pub session_cursor : ℕ
  pub live_events : List ProviderEvent
  pub stream_generation : ℕ
  pub started : Bool

abbrev pub fresh_puller : PullerState
fresh_puller = record {
  sessions = [];
  session_order = [];
  session_cursor = 0;
  live_events = [];
  stream_generation = 0;
  started = false;
}

abbrev pub runtime : Error
runtime = error runtime_error

-- `isinstance(e, TransientProviderError)`
unfoldable pub is_transient : Error → Bool
is_transient (error transient_provider) = true
is_transient (caused_by transient_provider e) = true
is_transient e = false

-- `_event_key(a) == _event_key(b)`
unfoldable pub same_key : ProviderEvent → ProviderEvent → Bool
same_key a b =
    a.provider == b.provider
    && a.session_id == b.session_id
    && a.provider_message_id == b.provider_message_id

-- On ℕ, `a - b` is `max(0, a - b)`.
unfoldable pub new_history_scan : ProviderSyncConfig → Option ℕ → ℕ → HistoryScan
new_history_scan config confirmed_ms end_ms = elim confirmed_ms [
  | none ↦ record {
    start_ms = end_ms - config.history_lookback_ms;
    end_ms = end_ms;
    page_token = none;
  }
  | some c ↦ record {
    start_ms = min c end_ms - config.history_overlap_ms;
    end_ms = end_ms;
    page_token = none;
  }
]

-- `max((v for v in (a, b) if v is not None), default=None)`
unfoldable pub latest : Option ℕ → Option ℕ → Option ℕ
latest none b = b
latest (some a) none = some a
latest (some a) (some b) = some (max a b)

-- The body of the loop of `_schedule_reconnect_handoff`.
unfoldable pub handoff : ProviderSyncConfig → ℕ → SessionPullState → SessionPullState
handoff config now_ms state =
    let replacement =
      new_history_scan config (latest state.confirmed_event_ms state.history_highwater_ms) now_ms in
    record state {
      history_scan = some (elim state.history_scan [
        | none ↦ replacement
        | some scan ↦ record replacement { start_ms = min replacement.start_ms scan.start_ms }
      ]);
      next_history_at_ms = 0;
    }

-- A loop over the values of a dict, which replaces each of them.
unfoldable pub map_values {ℓ κ} : {K : Type ℓ} {V : Type κ} → (V → V) → Dict K V → Dict K V
map_values f [] = []
map_values f ((k, v) ∷ d) = (k, f v) ∷ map_values f d

-- `a < b` on texts, by code points.
unfoldable pub str_lt : String → String → Bool
str_lt a b = elim (String.compare a b) [ Ordering.lt ↦ true | _ ↦ false ]

unfoldable pub insert_str : String → List String → List String
insert_str s [] = s ∷ []
insert_str s (t ∷ ts) = if str_lt t s then t ∷ insert_str s ts else s ∷ t ∷ ts

-- `sorted(texts)`
unfoldable pub sorted_str : List String → List String
unfolding insert_str str_lt
sorted_str [] = []
sorted_str (s ∷ ss) = insert_str s (sorted_str ss)

unfoldable pub new_session : ProviderSyncConfig → ℕ → Option ℕ → SessionPullState
new_session config now_ms confirmed_ms = record {
  confirmed_event_ms = confirmed_ms;
  history_highwater_ms = confirmed_ms;
  history_scan = some (new_history_scan config confirmed_ms now_ms);
  history_events = [];
  in_flight = none;
  next_history_at_ms = 0;
}

-- The dict comprehension of `start`.
unfoldable pub new_sessions :
    ProviderSyncConfig → ℕ → Dict String (Option ℕ) → Dict String SessionPullState
new_sessions config now_ms [] = []
new_sessions config now_ms ((session_id, confirmed_ms) ∷ d) =
    (session_id, new_session config now_ms confirmed_ms) ∷ new_sessions config now_ms d

-- `acknowledge`, whose checks all precede its writes.
unfoldable pub acknowledge : String → ProviderEvent → PullerState → Result PullerState
acknowledge provider event p = do
  require (event.provider == provider) runtime
  elim (lookup event.session_id p.sessions) [
    | none ↦ raise runtime
    | some state ↦ elim state.in_flight [
      | none ↦ raise runtime
      | some in_flight ↦ do
        require (same_key in_flight event) runtime
        let confirmed : Option ℕ = elim state.confirmed_event_ms [
          | none ↦ some event.event_ms
          | some c ↦ if ltb c event.event_ms then some event.event_ms else some c
        ]
        ok (record p {
          sessions =
              insert event.session_id
                (record state { confirmed_event_ms = confirmed; in_flight = none }) p.sessions;
        })
    ]
  ]

-- `_take_live_event`: the first event of the session, and the queue without it.
unfoldable pub take_live : String → List ProviderEvent → Option ProviderEvent × List ProviderEvent
take_live session_id [] = (none, [])
take_live session_id (e ∷ es) =
    let (found, rest) = take_live session_id es in
    if e.session_id == session_id then (some e, es) else (found, e ∷ rest)

-- `_deliver`
unfoldable pub deliver : ℕ → String → SessionPullState → ProviderEvent → PullerState → PullerState
deliver index session_id state event p = record p {
  sessions = insert session_id (record state { in_flight = some event }) p.sessions;
  session_cursor = (index + 1) % length p.session_order;
}

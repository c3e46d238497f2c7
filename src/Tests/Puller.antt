-- ===== src/Tests/Puller.antt =====
-- A provider whose history holds one event, and a puller that has started to read it.
use openevent_modules_im.Prelude.{
  ℕ, zero, suc, subst₂, sym, ◌≡◌, refl, String, true, string_eq, nat_eq, none, some, [], ◌∷◌, ok,
  lookup, insert, arith, sym,
}
use openevent_modules_im.Prelude.Actions.{pure}
use openevent_modules_im.Json.{end}
use openevent_modules_im.Models.{ProviderEvent}
use openevent_modules_im.Adapter.{ProviderAdapter, Clock}
use openevent_modules_im.Puller.Model.{
  SessionPullState, PullerState, fresh_puller, acknowledge, same_key, deliver,
}
use openevent_modules_im.Puller.Pull.{
  element, append_events, finish_page, settle_page, accept_page, raise_stream_error, start,
  schedule_reconnect_handoff, collect_live_event, receive_page, fetch_history_page, offer_history,
  poll_session, visit_session, visit_known, visit, rounds, refresh, take_next, take_message,
}
use openevent_modules_im.Puller.Sound.{flight, SoundSession, Sound}
use openevent_modules_im.Puller.Delivery.{Took}
use openevent_modules_im.Puller.Starting.{start-Sound}
use openevent_modules_im.Puller.Taking.{take_message-Took}
use openevent_modules_im.Puller.Acknowledging.{
  Acknowledged, acknowledge-Acknowledged, take_message-acknowledge,
}
use openevent_modules_im.Tests.Mapping.{sync_config}

abbrev pub message : ProviderEvent
message = record {
  provider = "lark";
  session_id = "oc_1";
  provider_message_id = "om_1";
  sender_external_user_id = "ou_1";
  msg_type = "text";
  content_raw = end;
  event_ms = 900;
  text = some "hello";
  sender_identity_type = "user";
}

-- The world is the time.
abbrev pub adapter : ProviderAdapter ℕ
adapter = record {
  provider_name = "lark";
  start_event_stream = λ ids. pure tt;
  stop_event_stream = pure tt;
  event_stream_error = pure none;
  event_stream_generation = pure 1;
  take_event = pure none;
  fetch_history_page = λ session_id start_ms end_ms page_token.
      pure (record { events = message ∷ []; next_page_token = none });
  send_message = λ session_id sender msg_type content request_id. pure (record {
    success = true;
    provider_message_id = some "om_2";
    error_code = none;
    error_message = none;
  });
}

abbrev pub clock : Clock ℕ
clock time = (ok time, suc time)

abbrev reading : SessionPullState
reading = record {
  confirmed_event_ms = none;
  history_highwater_ms = none;
  history_scan = some (record { start_ms = 500; end_ms = 1000; page_token = none });
  history_events = [];
  in_flight = none;
  next_history_at_ms = 0;
}

abbrev pub puller : PullerState
puller = record fresh_puller {
  sessions = ("oc_1", reading) ∷ [];
  session_order = "oc_1" ∷ [];
  stream_generation = 1;
  started = true;
}

reading-SoundSession : SoundSession "lark" "oc_1" reading
reading-SoundSession = record { queued = tt; flying = λ e h. absurd (ground arith) }

only_session : (i : ℕ) (j : String) → element ("oc_1" ∷ []) i ≡ some j → j ≡ "oc_1"
unfolding element
only_session zero j h = ground arith
only_session (suc zero) j h = absurd (ground arith)
only_session (suc (suc i)) j h = absurd (ground arith)

puller-Sound : Sound "lark" 2 puller
unfolding lookup
puller-Sound = record {
  each = λ session_id st h. elim (string_eq.dec session_id "oc_1") [
    | yes same ↦ subst₂ (SoundSession "lark") (sym same) (ground arith) reading-SoundSession
    | no other ↦ absurd (ground arith)
  ];
  rotation = λ i session_id h. ground (arith, only_session i session_id h);
  live = tt;
  bounded = omega arith;
}

take_message-Took_example :
    Took "lark" 2 puller
      (take_message adapter clock sync_config (puller, 1000)).0
      (take_message adapter clock sync_config (puller, 1000)).1.0
take_message-Took_example = take_message-Took adapter clock sync_config puller 1000 puller-Sound

start-Sound_example :
    Sound "lark" 2 (start adapter clock sync_config (("oc_1", none) ∷ []) (fresh_puller, 1000)).1.0
start-Sound_example = start-Sound adapter clock sync_config (("oc_1", none) ∷ []) 1000

-- After the history page is read, its event is in flight.
abbrev flying_session : SessionPullState
flying_session = record {
  confirmed_event_ms = none;
  history_highwater_ms = some 1000;
  history_scan = none;
  history_events = [];
  in_flight = some message;
  next_history_at_ms = 0;
}

abbrev flying : PullerState
flying = record puller { sessions = ("oc_1", flying_session) ∷ [] }

message_taken :
    take_message adapter clock sync_config (puller, 1000) ≡ (ok (some message), (flying, 1001))
unfolding take_message refresh raise_stream_error schedule_reconnect_handoff collect_live_event
    take_next rounds visit visit_known visit_session poll_session offer_history fetch_history_page
    receive_page accept_page append_events finish_page settle_page deliver element lookup insert
    string_eq nat_eq
message_taken = refl

take_message-acknowledge_example :
    (r : PullerState) × (acknowledge "lark" message flying ≡ ok r)
    × Sound "lark" 2 r
    × ((j : String) → flight j r ≡ flight j puller)
take_message-acknowledge_example =
    take_message-acknowledge adapter clock sync_config puller flying 1000 1001 message puller-Sound
      message_taken

flying-SoundSession : SoundSession "lark" "oc_1" flying_session
flying-SoundSession = record { queued = tt; flying = λ e h. (ground arith, ground arith) }

flying-Sound : Sound "lark" 2 flying
unfolding lookup
flying-Sound = record {
  each = λ session_id st h. elim (string_eq.dec session_id "oc_1") [
    | yes same ↦ subst₂ (SoundSession "lark") (sym same) (ground arith) flying-SoundSession
    | no other ↦ absurd (ground arith)
  ];
  rotation = λ i session_id h. ground (arith, only_session i session_id h);
  live = tt;
  bounded = omega arith;
}

abbrev landed : PullerState
landed = record puller {
  sessions =
      ("oc_1", record flying_session { confirmed_event_ms = some 900; in_flight = none }) ∷ [];
}

acknowledged : acknowledge "lark" message flying ≡ ok landed
unfolding acknowledge same_key lookup insert string_eq
acknowledged = refl

acknowledge-Acknowledged_example : Acknowledged "lark" 2 message flying landed
acknowledge-Acknowledged_example =
    acknowledge-Acknowledged "lark" 2 flying message flying-Sound acknowledged

-- Before a reconnect.
abbrev behind : PullerState
behind = record puller { stream_generation = 0 }

-- ===== src/State/Results.antt =====
-- The results and records of state.py: `mark_send_result_success`, `add_send_result`,
-- `add_sync_record`, `mark_sync_record` and `latest_event_ms`.
use openevent_modules_im.Prelude.{
  ℕ, String, Bool, ◌&&◌, not, Option, none, some, [], ◌∷◌, ◌==◌, if◌then◌else◌, ltb, nat_eq,
  string_eq, option_eq, list_eq, lookup, insert, erase, Result, ok, raise, ◌>>=◌,
}
use openevent_modules_im.Json.{str, get}
use openevent_modules_im.State.Model.{
  InboundKey, inbound_key_eq, OutboundTask, TerminalResult, heap_entry_eq, RuntimeState, add_to,
  same_send_result, conflict, expect_str,
}
use openevent_modules_im.Sdk.Model.{ParsedMessage}

unfoldable pub unblock_channel : ℕ → String → RuntimeState → RuntimeState
unblock_channel channel_id request_id s =
    if lookup channel_id s.blocked_by_channel == some request_id
    then record s { blocked_by_channel = erase channel_id s.blocked_by_channel }
    else s

unfoldable pub mark_send_result_success :
    RuntimeState → OutboundTask → String → String → String → ℕ → RuntimeState
mark_send_result_success s task provider session_id provider_message_id seq =
    let closed = unblock_channel task.channel_id task.request_id (record s {
      completed_request_ids = add_to task.request_id s.completed_request_ids;
      requests_by_id = erase task.request_id s.requests_by_id;
    }) in
    record closed {
      send_result_by_provider_message =
          insert (provider, session_id, task.channel_id, provider_message_id) seq
            closed.send_result_by_provider_message;
    }

-- The `TerminalResult` that `add_send_result` builds.
unfoldable pub terminal_result : ParsedMessage → Result TerminalResult
unfolding expect_str
terminal_result parsed = do
  request_id ← expect_str parsed.request_id
  status ← expect_str (get "status" parsed.data_fields)
  ok (record {
    seq = parsed.seq;
    channel_id = parsed.channel_id;
    principal = parsed.principal;
    recipients = parsed.recipients;
    request_id = request_id;
    prev_seq = parsed.prev_seq;
    status = status;
    provider_message_id = get "provider_message_id" parsed.data_fields;
  })

-- The checks of a first result against its request.
unfoldable pub fits_request : TerminalResult → OutboundTask → Bool
fits_request result task =
    result.prev_seq == some task.seq
    && result.channel_id == task.channel_id
    && result.recipients == task.principal ∷ []

-- The end of `add_send_result`: a successful result is kept under its provider message.
unfoldable pub keep_message : TerminalResult → String → String → RuntimeState → RuntimeState
keep_message result provider session_id s = elim result.provider_message_id [
  | str provider_message_id ↦
      if result.status == "SUCCESS" && not (provider_message_id == "")
      then record s {
        send_result_by_provider_message =
            insert (provider, session_id, result.channel_id, provider_message_id) result.seq
              s.send_result_by_provider_message;
      }
      else s
  | _ ↦ s
]

-- `add_send_result` after the result is built.
unfoldable pub add_terminal : RuntimeState → TerminalResult → String → String → Result RuntimeState
add_terminal s result provider session_id =
    elim (lookup result.request_id s.terminal_results_by_id) [
      | some existing ↦ if same_send_result existing result then ok s else raise conflict
      | none ↦ elim (lookup result.request_id s.canonical_requests_by_id) [
        | none ↦ raise conflict
        | some task ↦
            if fits_request result task
            then ok (
                keep_message result provider session_id (
                  unblock_channel task.channel_id task.request_id (record s {
                    completed_request_ids = add_to result.request_id s.completed_request_ids;
                    terminal_results_by_id =
                        insert result.request_id result s.terminal_results_by_id;
                    requests_by_id = erase result.request_id s.requests_by_id;
                  })))
            else raise conflict
      ]
    ]

unfoldable pub add_send_result :
    RuntimeState → ParsedMessage → String → String → Result RuntimeState
add_send_result s parsed provider session_id = do
  result ← terminal_result parsed
  add_terminal s result provider session_id

unfoldable pub record_event_ms : ℕ → ℕ → RuntimeState → RuntimeState
record_event_ms channel_id event_ms s = elim (lookup channel_id s.latest_event_ms_by_channel) [
  | none ↦ record s {
    latest_event_ms_by_channel = insert channel_id event_ms s.latest_event_ms_by_channel;
  }
  | some current ↦
      if ltb current event_ms
      then record s {
        latest_event_ms_by_channel = insert channel_id event_ms s.latest_event_ms_by_channel;
      }
      else s
]

unfoldable pub mark_sync_record : RuntimeState → InboundKey → ℕ → ℕ → RuntimeState
mark_sync_record s key channel_id event_ms =
    record_event_ms channel_id event_ms (record s { inbound_seen = add_to key s.inbound_seen })

unfoldable pub add_sync_record :
    RuntimeState → ParsedMessage → String → String → Result RuntimeState
unfolding expect_str
add_sync_record s parsed provider session_id = do
  provider_message_id ← expect_str (get "provider_message_id" parsed.data_fields)
  let key : InboundKey = (provider, session_id, parsed.channel_id, provider_message_id)
  if parsed.prev_seq == lookup key s.send_result_by_provider_message
      then ok (mark_sync_record s key parsed.channel_id parsed.event_ms)
      else raise conflict

unfoldable pub latest_event_ms : RuntimeState → ℕ → Option ℕ
latest_event_ms s channel_id = lookup channel_id s.latest_event_ms_by_channel

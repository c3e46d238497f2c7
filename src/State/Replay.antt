-- ===== src/State/Replay.antt =====
-- What a result or a record leaves in the state.
use openevent_modules_im.Prelude.{
  ℕ, ◌≡◌, ◌≢◌, ◌↔◌, max, inl, inr, subst, String, true, none, some, [], ◌∷◌, ◌==◌, contains,
  if◌then◌else◌, nat_eq, string_eq, option_eq, list_eq, arith, Option-cases, insert, lookup, erase,
  lookup-insert, ok,
}
use openevent_modules_im.Sdk.Model.{ParsedMessage}
use openevent_modules_im.Json.{get, str}
use openevent_modules_im.State.Model.{
  InboundKey, inbound_key_eq, OutboundTask, TerminalResult, RuntimeState, add_to,
}
use openevent_modules_im.State.Results.{
  add_sync_record, add_terminal, fits_request, keep_message, unblock_channel, mark_sync_record,
  record_event_ms, latest_event_ms,
}
use openevent_modules_im.State.Invariant.{IsValid}
use openevent_modules_im.State.Closing.{add_terminal-IsValid}
use openevent_modules_im.State.Copies.{add_terminal-stored, add_terminal-known}

add_terminal-has_result :
    (s : RuntimeState) (result : TerminalResult) (provider session_id : String) {s' : RuntimeState}
    → add_terminal s result provider session_id ≡ ok s'
    → (r : TerminalResult) × (lookup result.request_id s'.terminal_results_by_id ≡ some r)
add_terminal-has_result s result provider session_id {s'} e =
    elim (Option-cases (lookup result.request_id s.terminal_results_by_id)) [
      | inl new ↦ (result, add_terminal-stored s result provider session_id new e)
      | inr (existing, old) ↦
          let same : s ≡ s' =
            ground (arith, add_terminal-known s existing result provider session_id old) in
          (
            existing,
            subst
                (λ (u : RuntimeState).
                  lookup result.request_id u.terminal_results_by_id ≡ some existing)
                same old,
          )
    ]

-- In a valid state, a completed request is neither pending nor the one that a channel waits for.
completed_not_pending :
    (s : RuntimeState) (k : String)
    → IsValid s
    → contains s.completed_request_ids k ≡ true
    → (lookup k s.requests_by_id ≡ none) × ((c : ℕ) → lookup c s.blocked_by_channel ≢ some k)
completed_not_pending s k v done = (gone, λ c h. let (t, pending, _) = v.live c k h in cc gone)
  where
    gone : lookup k s.requests_by_id ≡ none
    gone = elim (Option-cases (lookup k s.requests_by_id)) [
      | inl e ↦ e
      | inr (t, pending) ↦ absurd (cc (v.unfinished k t pending))
    ]

-- An accepted send.result closes its request: in a valid state the request is completed and no
-- longer pending afterwards, and no channel is blocked by it.
pub add_terminal-closes :
    (s : RuntimeState) (result : TerminalResult) (provider session_id : String) {s' : RuntimeState}
    → IsValid s
    → add_terminal s result provider session_id ≡ ok s'
    → (contains s'.completed_request_ids result.request_id ≡ true)
      × (lookup result.request_id s'.requests_by_id ≡ none)
      × ((c : ℕ) → lookup c s'.blocked_by_channel ≢ some result.request_id)
add_terminal-closes s result provider session_id {s'} v e =
    let (r, stored) = add_terminal-has_result s result provider session_id e in
    let valid = add_terminal-IsValid s result provider session_id v e in
    let done = valid.finished result.request_id r stored in
    let (gone, free) = completed_not_pending s' result.request_id valid done in (done, gone, free)

abbrev first_state : RuntimeState → TerminalResult → OutboundTask → String → String → RuntimeState
first_state s result task provider session_id = keep_message result provider session_id (
    unblock_channel task.channel_id task.request_id (record s {
      completed_request_ids = add_to result.request_id s.completed_request_ids;
      terminal_results_by_id = insert result.request_id result s.terminal_results_by_id;
      requests_by_id = erase result.request_id s.requests_by_id;
    }))

-- A first send.result is accepted exactly if its request is known and its prev_seq, channel and
-- recipients are those of the request; otherwise it is a conflict.
pub add_terminal-first_iff :
    (s : RuntimeState) (result : TerminalResult) (provider session_id : String)
    → lookup result.request_id s.terminal_results_by_id ≡ none
    → ((s' : RuntimeState) × (add_terminal s result provider session_id ≡ ok s')) ↔ (
        (task : OutboundTask) × (lookup result.request_id s.canonical_requests_by_id ≡ some task)
        × (result.prev_seq ≡ some task.seq)
        × (result.channel_id ≡ task.channel_id)
        × (result.recipients ≡ task.principal ∷ []))
unfolding add_terminal fits_request
add_terminal-first_iff s result provider session_id new = (accepted, fitting)
  where
    accepted :
        ((s' : RuntimeState) × (add_terminal s result provider session_id ≡ ok s'))
        → (task : OutboundTask) × (lookup result.request_id s.canonical_requests_by_id ≡ some task)
          × (result.prev_seq ≡ some task.seq)
          × (result.channel_id ≡ task.channel_id)
          × (result.recipients ≡ task.principal ∷ [])
    accepted (s', e) = elim (Option-cases (lookup result.request_id s.canonical_requests_by_id)) [
      | inl missing ↦ absurd (ground arith)
      | inr (task, found) ↦ (task, found, ground arith, ground arith, ground arith)
    ]

    fitting :
        ((task : OutboundTask) × (lookup result.request_id s.canonical_requests_by_id ≡ some task)
          × (result.prev_seq ≡ some task.seq)
          × (result.channel_id ≡ task.channel_id)
          × (result.recipients ≡ task.principal ∷ []))
        → (s' : RuntimeState) × (add_terminal s result provider session_id ≡ ok s')
    fitting (task, found, p, q, r) = (first_state s result task provider session_id, ground arith)

-- `latest_event_ms` is the greatest `event_ms` of a channel's records: publishing one raises it to
-- its own `event_ms` if that is later, and leaves the other channels alone.
pub latest_event_ms-mark_sync_record :
    (s : RuntimeState) (key : InboundKey) (c ms d : ℕ)
    → latest_event_ms (mark_sync_record s key c ms) d ≡ (
        if d == c
        then elim (latest_event_ms s c) [ none ↦ some ms | some old ↦ some (max old ms) ]
        else latest_event_ms s d)
unfolding latest_event_ms mark_sync_record record_event_ms
latest_event_ms-mark_sync_record s key c ms d =
    ground (arith, lookup-insert d c ms s.latest_event_ms_by_channel)

add_terminal-keeps_message :
    (s : RuntimeState) (result : TerminalResult) (m provider session_id : String)
    {s' : RuntimeState}
    → lookup result.request_id s.terminal_results_by_id ≡ none
    → result.status ≡ "SUCCESS"
    → result.provider_message_id ≡ str m
    → m ≢ ""
    → add_terminal s result provider session_id ≡ ok s'
    → lookup (provider, session_id, result.channel_id, m) s'.send_result_by_provider_message
      ≡ some result.seq
unfolding add_terminal keep_message unblock_channel
add_terminal-keeps_message s result m provider session_id new success named full e =
    let key : InboundKey = (provider, session_id, result.channel_id, m) in
    ground (arith, lookup-insert key key result.seq s.send_result_by_provider_message)

-- After a first SUCCESS result that names a provider message, a sync.record of that message in the
-- channel of the result is accepted exactly if its prev_seq is the sequence number of the result.
pub add_sync_record-add_terminal :
    (s : RuntimeState) (result : TerminalResult) (m provider session_id : String)
    (parsed : ParsedMessage) {s' : RuntimeState}
    → lookup result.request_id s.terminal_results_by_id ≡ none
    → result.status ≡ "SUCCESS"
    → result.provider_message_id ≡ str m
    → m ≢ ""
    → add_terminal s result provider session_id ≡ ok s'
    → get "provider_message_id" parsed.data_fields ≡ str m
    → parsed.channel_id ≡ result.channel_id
    → ((u : RuntimeState) × (add_sync_record s' parsed provider session_id ≡ ok u))
      ↔ (parsed.prev_seq ≡ some result.seq)
unfolding add_sync_record
add_sync_record-add_terminal s result m provider session_id parsed {s'} new success named full e id
      channel =
    let kept = add_terminal-keeps_message s result m provider session_id new success named full e in
    (
      λ (u, h). ground (arith, kept),
      λ h. (
        mark_sync_record s' (provider, session_id, parsed.channel_id, m) parsed.channel_id
            parsed.event_ms,
        ground (arith, kept),
      ),
    )

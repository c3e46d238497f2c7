-- ===== src/State/Closing.antt =====
-- Results and records, and all calls together, with the invariant of `RuntimeState`.
use openevent_modules_im.Prelude.{
  ℕ, ◌≡◌, ◌⊎◌, inl, inr, refl, ap, subst, String, ◌&&◌, Option, none, some, ◌==◌, if◌then◌else◌,
  nat_eq, string_eq, option_eq, list_eq, arith, Option-cases, insert, lookup, erase, lookup-insert,
  lookup-erase, Dict, ok, >>=-eq-ok,
}
use openevent_modules_im.Sdk.Model.{ParsedMessage}
use openevent_modules_im.State.Model.{
  InboundKey, heap_entry_eq, OutboundTask, TerminalResult, RuntimeState, initial, add_to,
}
use openevent_modules_im.State.Requests.{add_send_request, outbound_task, next_pending_task}
use openevent_modules_im.State.Results.{
  unblock_channel, mark_send_result_success, terminal_result, keep_message, add_terminal,
  add_send_result, record_event_ms, mark_sync_record, add_sync_record,
}
use openevent_modules_im.State.Invariant.{
  IsValid, initial-IsValid, contains-add_to, add_task-IsValid, next_pending_task-IsValid,
}

-- Two states that differ at most in what the invariant does not speak of.
record Alike (s u : RuntimeState) : Type 0 where
  completed : u.completed_request_ids ≡ s.completed_request_ids
  canonical : u.canonical_requests_by_id ≡ s.canonical_requests_by_id
  terminal : u.terminal_results_by_id ≡ s.terminal_results_by_id
  requests : u.requests_by_id ≡ s.requests_by_id
  heap : u.pending_heap ≡ s.pending_heap
  blocked : u.blocked_by_channel ≡ s.blocked_by_channel

Alike-IsValid : (s u : RuntimeState) → Alike s u → IsValid s → IsValid u
Alike-IsValid s u a v = record {
  ordered = rw a.heap v.ordered;
  keyed = rw a.canonical v.keyed;
  canonical = rw (a.requests, a.canonical) v.canonical;
  unfinished = rw (a.requests, a.completed) v.unfinished;
  waiting = rw (a.requests, a.heap, a.blocked) v.waiting;
  live = rw (a.requests, a.blocked) v.live;
  kept = rw (a.requests, a.completed, a.canonical) v.kept;
  finished = rw (a.terminal, a.completed) v.finished;
}

record_event_ms-Alike :
    (channel_id event_ms : ℕ) (s : RuntimeState) → Alike s (record_event_ms channel_id event_ms s)
unfolding record_event_ms
record_event_ms-Alike channel_id event_ms s = ground arith

keep_message-Alike :
    (result : TerminalResult) (provider session_id : String) (s : RuntimeState)
    → Alike s (keep_message result provider session_id s)
unfolding keep_message
keep_message-Alike result provider session_id s = ground arith

mark_sync_record-Alike :
    (s : RuntimeState) (key : InboundKey) (channel_id event_ms : ℕ)
    → Alike s (mark_sync_record s key channel_id event_ms)
unfolding mark_sync_record record_event_ms
mark_sync_record-Alike s key channel_id event_ms = ground arith

lookup-unblock_channel :
    (c channel_id : ℕ) (k : String) (s : RuntimeState)
    → lookup c (unblock_channel channel_id k s).blocked_by_channel ≡ (
        if c == channel_id && lookup channel_id s.blocked_by_channel == some k
        then none
        else lookup c s.blocked_by_channel)
unfolding unblock_channel
lookup-unblock_channel c channel_id k s =
    ground (arith, lookup-erase c channel_id s.blocked_by_channel)

-- A request gets its result: it is no longer pending, and no longer blocks its channel.
abbrev closed : RuntimeState → ℕ → String → Dict String TerminalResult → RuntimeState
closed s channel_id k results = record s {
  completed_request_ids = add_to k s.completed_request_ids;
  terminal_results_by_id = results;
  requests_by_id = erase k s.requests_by_id;
}

unblock_channel-eq :
    (channel_id : ℕ) (k : String) (s : RuntimeState)
    → unblock_channel channel_id k s
      ≡ record s { blocked_by_channel = (unblock_channel channel_id k s).blocked_by_channel }
unfolding unblock_channel
unblock_channel-eq channel_id k s = ground arith

module _ (s : RuntimeState) (v : IsValid s) (channel_id : ℕ) (k : String)
    (results : Dict String TerminalResult)
    (owned : (t : OutboundTask) → lookup k s.requests_by_id ≡ some t → t.channel_id ≡ channel_id)
    (only : (j : String) (r : TerminalResult)
      → lookup j results ≡ some r
      → (j ≡ k) ⊎ (lookup j s.terminal_results_by_id ≡ some r)) where
  closed_live :
      (c : ℕ) (j : String)
      → lookup c (unblock_channel channel_id k (closed s channel_id k results)).blocked_by_channel
        ≡ some j
      → (t : OutboundTask) × (lookup j (erase k s.requests_by_id) ≡ some t) × (t.channel_id ≡ c)
  closed_live c j h =
      let blocks = lookup-unblock_channel c channel_id k (closed s channel_id k results) in
      let (t, pending, on_channel) = v.live c j (ground (arith, blocks)) in
      elim (string_eq.dec j k) [
        | yes same ↦ absurd (
            ground (
              arith,
              blocks,
              owned t (subst (λ i. lookup i s.requests_by_id ≡ some t) same pending),
            ))
        | no other ↦ (t, ground (arith, lookup-erase j k s.requests_by_id), on_channel)
      ]

  closed-IsValid : IsValid (unblock_channel channel_id k (closed s channel_id k results))
  closed-IsValid = rw unblock_channel-eq (record {
    ordered = v.ordered;
    keyed = v.keyed;
    canonical = λ j t h. ground (arith, v.canonical j t, lookup-erase j k s.requests_by_id);
    unfinished = λ j t h. ground (
      arith,
      v.unfinished j t,
      lookup-erase j k s.requests_by_id,
      contains-add_to j k s.completed_request_ids,
    );
    waiting = λ j t h. ground (
      arith,
      v.waiting j t,
      lookup-erase j k s.requests_by_id,
      lookup-unblock_channel t.channel_id channel_id k (closed s channel_id k results),
    );
    live = closed_live;
    kept = λ j t h. ground (
      arith,
      v.kept j t,
      lookup-erase j k s.requests_by_id,
      contains-add_to j k s.completed_request_ids,
    );
    finished = λ j r h.
        ground (arith, only j r h, v.finished j r, contains-add_to j k s.completed_request_ids);
  })

first-IsValid :
    (s : RuntimeState)
    → IsValid s
    → (result : TerminalResult) (task : OutboundTask) (provider session_id : String)
    → lookup result.request_id s.canonical_requests_by_id ≡ some task
    → IsValid (
        keep_message result provider session_id (
          unblock_channel task.channel_id task.request_id (
            closed s task.channel_id result.request_id
              (insert result.request_id result s.terminal_results_by_id))))
first-IsValid s v result task provider session_id found =
    rw (v.keyed result.request_id task found) (
      Alike-IsValid _ _ (keep_message-Alike result provider session_id _) (
        closed-IsValid s v task.channel_id result.request_id
          (insert result.request_id result s.terminal_results_by_id)
          (λ t h. ground (arith, v.canonical result.request_id t h))
          (λ j r h.
            ground (arith, lookup-insert j result.request_id result s.terminal_results_by_id))))

pub add_terminal-IsValid :
    (s : RuntimeState) (result : TerminalResult) (provider session_id : String) {s' : RuntimeState}
    → IsValid s
    → add_terminal s result provider session_id ≡ ok s'
    → IsValid s'
unfolding add_terminal
add_terminal-IsValid s result provider session_id {s'} v h =
    elim (Option-cases (lookup result.request_id s.terminal_results_by_id)) [
      | inr (existing, old) ↦ let e : s ≡ s' = ground arith in subst IsValid e v
      | inl new ↦ elim (Option-cases (lookup result.request_id s.canonical_requests_by_id)) [
        | inl missing ↦ absurd (ground arith)
        | inr (task, found) ↦
            let e : keep_message result provider session_id (
                  unblock_channel task.channel_id task.request_id (
                    closed s task.channel_id result.request_id
                      (insert result.request_id result s.terminal_results_by_id)))
                ≡ s' =
              ground arith in
            subst IsValid e (first-IsValid s v result task provider session_id found)
      ]
    ]

mark_send_result_success-IsValid :
    (s : RuntimeState) (task : OutboundTask) (provider session_id provider_message_id : String)
    (seq : ℕ)
    → IsValid s
    → lookup task.request_id s.requests_by_id ≡ some task
    → IsValid (mark_send_result_success s task provider session_id provider_message_id seq)
unfolding mark_send_result_success
mark_send_result_success-IsValid s task provider session_id provider_message_id seq v pending =
    Alike-IsValid
      (unblock_channel task.channel_id task.request_id
        (closed s task.channel_id task.request_id s.terminal_results_by_id))
      _
      (record {
        completed = refl;
        canonical = refl;
        terminal = refl;
        requests = refl;
        heap = refl;
        blocked = refl;
      })
      (closed-IsValid s v task.channel_id task.request_id s.terminal_results_by_id
        (λ t h. ground arith) (λ j r h. inr h))

-- One call of an operation of `RuntimeState`. A message is marked as sent for a pending task.
pub data Step (s : RuntimeState) : RuntimeState → Type 0 where
  request :
      {s' : RuntimeState} (parsed : ParsedMessage) → add_send_request s parsed ≡ ok s' → Step s s'
  take : {s' : RuntimeState} (o : Option OutboundTask) → next_pending_task s ≡ (o, s') → Step s s'
  sent :
      {s' : RuntimeState} (task : OutboundTask) (provider session_id provider_message_id : String)
      (seq : ℕ)
      → lookup task.request_id s.requests_by_id ≡ some task
      → mark_send_result_success s task provider session_id provider_message_id seq ≡ s'
      → Step s s'
  result :
      {s' : RuntimeState} (parsed : ParsedMessage) (provider session_id : String)
      → add_send_result s parsed provider session_id ≡ ok s'
      → Step s s'
  synced :
      {s' : RuntimeState} (parsed : ParsedMessage) (provider session_id : String)
      → add_sync_record s parsed provider session_id ≡ ok s'
      → Step s s'
  published :
      {s' : RuntimeState} (key : InboundKey) (channel_id event_ms : ℕ)
      → mark_sync_record s key channel_id event_ms ≡ s'
      → Step s s'

pub data Reach : RuntimeState → Type 0 where
  start : Reach initial
  next : {s s' : RuntimeState} → Reach s → Step s s' → Reach s'

add_sync_record-Alike :
    (s : RuntimeState) (parsed : ParsedMessage) (provider session_id : String) {s' : RuntimeState}
    → add_sync_record s parsed provider session_id ≡ ok s'
    → Alike s s'
unfolding add_sync_record mark_sync_record record_event_ms
add_sync_record-Alike s parsed provider session_id h = ground arith

Step-IsValid : {s s' : RuntimeState} → IsValid s → Step s s' → IsValid s'
unfolding add_send_request add_send_result
Step-IsValid {s} v (request parsed h) =
    let (task, _, added) = >>=-eq-ok (outbound_task parsed) _ h in add_task-IsValid s task v added
Step-IsValid {s} v (take o h) = subst IsValid (ap (λ p. p.1) h) (next_pending_task-IsValid s v)
Step-IsValid {s} v (sent task provider session_id message seq pending h) =
    subst IsValid h
      (mark_send_result_success-IsValid s task provider session_id message seq v pending)
Step-IsValid {s} v (result parsed provider session_id h) =
    let (r, _, added) = >>=-eq-ok (terminal_result parsed) _ h in
    add_terminal-IsValid s r provider session_id v added
Step-IsValid {s} v (synced parsed provider session_id h) =
    Alike-IsValid s _ (add_sync_record-Alike s parsed provider session_id h) v
Step-IsValid {s} v (published key channel_id event_ms h) =
    subst IsValid h (Alike-IsValid s _ (mark_sync_record-Alike s key channel_id event_ms) v)

-- Whatever calls are made of the operations of the state, starting from the empty state, where
-- `mark_send_result_success` is called only for a task that is the pending one of its request_id, the
-- invariant holds: the heap is ordered, a pending request is canonical, without a result, and
-- in the heap unless its channel is blocked by it, channels are blocked by pending requests only,
-- and a request that was added is pending until it is completed.
pub Reach-IsValid : {s : RuntimeState} → Reach s → IsValid s
Reach-IsValid start = initial-IsValid
Reach-IsValid (next r step) = Step-IsValid (Reach-IsValid r) step

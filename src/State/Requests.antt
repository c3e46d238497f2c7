-- ===== src/State/Requests.antt =====
-- The requests of state.py: `add_send_request`, `next_pending_task` and `channel_has_pending`.
use openevent_modules_im.Prelude.{
  ℕ, String, Bool, false, ◌||◌, not, Option, none, some, List, [], ◌∷◌, ◌++◌, ◌==◌, contains,
  if◌then◌else◌, nat_eq, string_eq, option_eq, list_eq, Dict, lookup, insert, Result, ok, raise,
  ◌>>=◌,
}
use openevent_modules_im.Json.{get}
use openevent_modules_im.State.Model.{
  inbound_key_eq, OutboundTask, HeapEntry, heap_entry_eq, RuntimeState, same_send_request, conflict,
  expect_str, expect_object,
}
use openevent_modules_im.Sdk.Model.{ParsedMessage}
use openevent_modules_im.State.Heap.{heappush, push_all}

-- The `OutboundTask` that `add_send_request` builds.
unfoldable pub outbound_task : ParsedMessage → Result OutboundTask
unfolding expect_str expect_object
outbound_task parsed = do
  request_id ← expect_str parsed.request_id
  msg_type ← expect_str (get "msg_type" parsed.data_fields)
  content ← expect_object (get "content" parsed.data_fields)
  ok (record {
    seq = parsed.seq;
    channel_id = parsed.channel_id;
    principal = parsed.principal;
    request_id = request_id;
    msg_type = msg_type;
    content = content;
  })

-- `add_send_request` after the task is built.
unfoldable pub add_task : RuntimeState → OutboundTask → Result RuntimeState
add_task s task = elim (lookup task.request_id s.canonical_requests_by_id) [
  | some existing ↦ if same_send_request existing task then ok s else raise conflict
  | none ↦
      let known = record s {
        canonical_requests_by_id = insert task.request_id task s.canonical_requests_by_id;
      } in
      if contains s.completed_request_ids task.request_id
      then ok known
      else ok (record known {
        requests_by_id = insert task.request_id task s.requests_by_id;
        pending_heap = heappush (task.seq, task.request_id) s.pending_heap;
      })
]

unfoldable pub add_send_request : RuntimeState → ParsedMessage → Result RuntimeState
add_send_request s parsed = do task ← outbound_task parsed; add_task s task

-- What the loop of `next_pending_task` does with a popped entry.
pub data Verdict : Type 0 where
  stale deferred : Verdict
  ready : OutboundTask → Verdict

unfoldable pub verdict : RuntimeState → HeapEntry → Verdict
verdict s (seq, request_id) = elim (lookup request_id s.requests_by_id) [
  | none ↦ stale
  | some task ↦
      if not (task.seq == seq) || contains s.completed_request_ids request_id
      then stale
      else elim (lookup task.channel_id s.blocked_by_channel) [
        | none ↦ ready task
        | some blocked_request_id ↦
            if blocked_request_id == request_id then ready task else deferred
      ]
]

-- The `while` loop, which pops the heap from its head, and what follows it.
unfoldable pub pop_pending :
    RuntimeState → List HeapEntry → List HeapEntry → Option OutboundTask × RuntimeState
pop_pending s postponed [] = (none, record s { pending_heap = push_all postponed [] })
pop_pending s postponed (entry ∷ heap) = elim (verdict s entry) [
  | stale ↦ pop_pending s postponed heap
  | deferred ↦ pop_pending s (postponed ++ entry ∷ []) heap
  | ready task ↦ (
    some task,
    record s {
      blocked_by_channel = insert task.channel_id entry.1 s.blocked_by_channel;
      pending_heap = push_all postponed heap;
    },
  )
]

unfoldable pub next_pending_task : RuntimeState → Option OutboundTask × RuntimeState
next_pending_task s = pop_pending s [] s.pending_heap

any_on_channel : ℕ → Dict String OutboundTask → Bool
any_on_channel channel_id [] = false
any_on_channel channel_id ((k, task) ∷ tasks) =
    task.channel_id == channel_id || any_on_channel channel_id tasks

unfoldable pub channel_has_pending : RuntimeState → ℕ → Bool
unfolding any_on_channel
channel_has_pending s channel_id = any_on_channel channel_id s.requests_by_id

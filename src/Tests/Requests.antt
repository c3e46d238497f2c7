-- ===== src/Tests/Requests.antt =====
-- Two requests of one channel, the result of the first, and the provider's copy of its message.
use openevent_modules_im.Prelude.{
  ℕ, ◌≡◌, ◌≢◌, ◌≤◌, ◌↔◌, ◌⊎◌, refl, String, raise, string_eq, nat_eq, option_eq, list_eq, Option,
  none, some, [], ◌∷◌, contains, true, max, lookup, insert, erase, ok, if◌then◌else◌, ◌==◌,
}
use openevent_modules_im.Json.{null, str, obj, Fields, end, field, get, find}
use openevent_modules_im.Json.Equality.{IsWellFormed, IsObject}
use openevent_modules_im.Sdk.Model.{ParsedMessage}
use openevent_modules_im.State.Model.{
  inbound_key_eq, OutboundTask, TerminalResult, RuntimeState, initial, add_to, expect_str,
  expect_object, heap_entry_eq, conflict,
}
use openevent_modules_im.State.Heap.{entry_lt, heappush, push_all}
use openevent_modules_im.State.Requests.{
  outbound_task, add_task, add_send_request, verdict, pop_pending, next_pending_task,
}
use openevent_modules_im.State.Results.{
  unblock_channel, fits_request, keep_message, add_terminal, mark_sync_record, add_sync_record,
  latest_event_ms,
}
use openevent_modules_im.State.Invariant.{IsValid}
use openevent_modules_im.State.Closing.{request, take, Reach, start, next, Reach-IsValid}
use openevent_modules_im.State.Pending.{IsOpen, next_pending_task-first, next_pending_task-none}
use openevent_modules_im.State.Copies.{
  IsCopyOfRequest, IsCopyOfResult, add_task-again, add_terminal-again,
}
use openevent_modules_im.State.Replay.{
  add_terminal-closes, add_terminal-first_iff, add_sync_record-add_terminal,
  latest_event_ms-mark_sync_record,
}

abbrev hello : Fields
hello = field "text" (str "hello") end

abbrev task_of : ℕ → String → OutboundTask
task_of seq id = record {
  seq = seq;
  channel_id = 7;
  principal = 20;
  request_id = id;
  msg_type = "text";
  content = hello;
}

abbrev request_data : Fields
request_data = field "msg_type" (str "text") (field "content" (obj hello) end)

abbrev request_message : ℕ → String → ParsedMessage
request_message seq id = record {
  seq = seq;
  channel_id = 7;
  principal = 20;
  recipients = 1 ∷ [];
  kind = "send.request";
  payload = end;
  data_fields = request_data;
  event_ms = 1000;
  ingested_ms = null;
  request_id = str id;
  prev_seq = none;
}

abbrev two_requests : RuntimeState
two_requests = record initial {
  canonical_requests_by_id = ("a", task_of 5 "a") ∷ ("b", task_of 4 "b") ∷ [];
  requests_by_id = ("a", task_of 5 "a") ∷ ("b", task_of 4 "b") ∷ [];
  pending_heap = (4, "b") ∷ (5, "a") ∷ [];
}

abbrev one_request : RuntimeState
one_request = record initial {
  canonical_requests_by_id = ("a", task_of 5 "a") ∷ [];
  requests_by_id = ("a", task_of 5 "a") ∷ [];
  pending_heap = (5, "a") ∷ [];
}

abbrev taken_request : RuntimeState
taken_request = record two_requests {
  pending_heap = (5, "a") ∷ [];
  blocked_by_channel = (7, "b") ∷ [];
}

first_added : add_send_request initial (request_message 5 "a") ≡ ok one_request
unfolding add_send_request outbound_task add_task expect_str expect_object get lookup insert
    entry_lt heappush find string_eq
first_added = refl

second_added : add_send_request one_request (request_message 4 "b") ≡ ok two_requests
unfolding add_send_request outbound_task add_task expect_str expect_object get lookup insert
    entry_lt heappush find string_eq nat_eq
second_added = refl

b_taken : next_pending_task two_requests ≡ (some (task_of 4 "b"), taken_request)
unfolding next_pending_task pop_pending verdict lookup insert push_all entry_lt heappush string_eq
    nat_eq
b_taken = refl

none_taken : next_pending_task taken_request ≡ (none, taken_request)
unfolding next_pending_task pop_pending verdict lookup insert push_all entry_lt heappush string_eq
    nat_eq
none_taken = refl

two_reached : Reach two_requests
two_reached =
    next (next start (request (request_message 5 "a") first_added))
      (request (request_message 4 "b") second_added)

Reach-IsValid_example : IsValid taken_request
Reach-IsValid_example = Reach-IsValid (next two_reached (take (some (task_of 4 "b")) b_taken))

two_IsValid : IsValid two_requests
two_IsValid = Reach-IsValid two_reached

taken_IsValid : IsValid taken_request
taken_IsValid = Reach-IsValid (next two_reached (take (some (task_of 4 "b")) b_taken))

next_pending_task-first_example :
    IsOpen two_requests (task_of 4 "b")
    × ((u : OutboundTask) → IsOpen two_requests u → 4 ≤ u.seq)
    × (lookup 7 taken_request.blocked_by_channel ≡ some "b")
next_pending_task-first_example = next_pending_task-first two_requests two_IsValid b_taken

a_pending : lookup "a" taken_request.requests_by_id ≡ some (task_of 5 "a")
unfolding lookup string_eq
a_pending = refl

next_pending_task-none_example :
    (b : OutboundTask) × (lookup 7 taken_request.blocked_by_channel ≡ some b.request_id)
    × (lookup b.request_id taken_request.requests_by_id ≡ some b)
    × (b.channel_id ≡ 7)
next_pending_task-none_example =
    next_pending_task-none taken_request taken_IsValid none_taken "a" (task_of 5 "a") a_pending

a_added : add_task initial (task_of 5 "a") ≡ ok one_request
unfolding add_task lookup insert entry_lt heappush string_eq
a_added = refl

hello-IsObject : IsObject hello
unfolding IsObject IsWellFormed find
hello-IsObject = (refl, tt, tt)

om_1_IsWellFormed : IsWellFormed (str "om_1")
unfolding IsWellFormed
om_1_IsWellFormed = tt

abbrev a_copy : OutboundTask
a_copy = task_of 9 "a"

add_task-again_example :
    (IsCopyOfRequest (task_of 5 "a") a_copy → add_task one_request a_copy ≡ ok one_request)
    × ((a_copy.channel_id ≢ 7) ⊎ ((a_copy.principal ≢ 20) ⊎ (a_copy.msg_type ≢ "text"))
        → add_task one_request a_copy ≡ raise conflict)
add_task-again_example = add_task-again initial (task_of 5 "a") a_copy hello-IsObject a_added refl

-- The result of the second request.
abbrev b_result : TerminalResult
b_result = record {
  seq = 6;
  channel_id = 7;
  principal = 1;
  recipients = 20 ∷ [];
  request_id = "b";
  prev_seq = some 4;
  status = "SUCCESS";
  provider_message_id = str "om_1";
}

abbrev closed_request : RuntimeState
closed_request = record taken_request {
  completed_request_ids = "b" ∷ [];
  terminal_results_by_id = ("b", b_result) ∷ [];
  requests_by_id = ("a", task_of 5 "a") ∷ [];
  blocked_by_channel = [];
  send_result_by_provider_message = (("lark", "oc_1", 7, "om_1"), 6) ∷ [];
}

b_closed : add_terminal taken_request b_result "lark" "oc_1" ≡ ok closed_request
unfolding add_terminal fits_request keep_message unblock_channel add_to lookup insert erase
    string_eq nat_eq option_eq list_eq
b_closed = refl

abbrev b_copy : TerminalResult
b_copy = record b_result { seq = 9 }

add_terminal-again_example :
    (IsCopyOfResult b_result b_copy
      → add_terminal closed_request b_copy "lark" "oc_1" ≡ ok closed_request)
    × ((b_copy.channel_id ≢ 7)
          ⊎ ((b_copy.principal ≢ 1)
              ⊎ ((b_copy.recipients ≢ 20 ∷ [])
                  ⊎ ((b_copy.prev_seq ≢ some 4) ⊎ (b_copy.status ≢ "SUCCESS"))))
        → add_terminal closed_request b_copy "lark" "oc_1" ≡ raise conflict)
add_terminal-again_example =
    add_terminal-again taken_request b_result b_copy "lark" "oc_1" om_1_IsWellFormed b_closed refl

add_terminal-closes_example :
    (contains closed_request.completed_request_ids "b" ≡ true)
    × (lookup "b" closed_request.requests_by_id ≡ none)
    × ((c : ℕ) → lookup c closed_request.blocked_by_channel ≢ some "b")
add_terminal-closes_example =
    add_terminal-closes taken_request b_result "lark" "oc_1" taken_IsValid b_closed

b_new : lookup "b" taken_request.terminal_results_by_id ≡ none
unfolding lookup
b_new = refl

add_terminal-first_iff_example :
    ((s' : RuntimeState) × (add_terminal taken_request b_result "lark" "oc_1" ≡ ok s')) ↔ (
      (task : OutboundTask) × (lookup "b" taken_request.canonical_requests_by_id ≡ some task)
      × (b_result.prev_seq ≡ some task.seq)
      × (b_result.channel_id ≡ task.channel_id)
      × (b_result.recipients ≡ task.principal ∷ []))
add_terminal-first_iff_example = add_terminal-first_iff taken_request b_result "lark" "oc_1" b_new

-- The provider's copy of the message, with a prev_seq.
abbrev copy_message : Option ℕ → ParsedMessage
copy_message prev = record {
  seq = 8;
  channel_id = 7;
  principal = 20;
  recipients = 30 ∷ [];
  kind = "sync.record";
  payload = end;
  data_fields = field "provider_message_id" (str "om_1") end;
  event_ms = 2000;
  ingested_ms = null;
  request_id = null;
  prev_seq = prev;
}

om_1_ne_empty : ◌≢◌ {A = String} "om_1" ""
om_1_ne_empty e = cc

copy_named : get "provider_message_id" (copy_message (some 6)).data_fields ≡ str "om_1"
unfolding get find string_eq
copy_named = refl

add_sync_record-add_terminal_example :
    ((u : RuntimeState) × (add_sync_record closed_request (copy_message (some 6)) "lark" "oc_1"
        ≡ ok u))
    ↔ (◌≡◌ {A = Option ℕ} (some 6) (some 6))
add_sync_record-add_terminal_example =
    add_sync_record-add_terminal taken_request b_result "om_1" "lark" "oc_1" (copy_message (some 6))
      b_new refl refl om_1_ne_empty b_closed copy_named refl

latest_event_ms-mark_sync_record_example :
    latest_event_ms (mark_sync_record closed_request ("lark", "oc_1", 7, "om_1") 7 2000) 7 ≡ (
      if ◌==◌ {A = ℕ} 7 7
      then elim (latest_event_ms closed_request 7) [
        | none ↦ some 2000
        | some old ↦ some (max old 2000)
      ]
      else latest_event_ms closed_request 7)
latest_event_ms-mark_sync_record_example =
    latest_event_ms-mark_sync_record closed_request ("lark", "oc_1", 7, "om_1") 7 2000 7

-- ===== src/State/Copies.antt =====
-- A send.request or a send.result that is seen again.
use openevent_modules_im.Prelude.{
  ◌≡◌, ◌≢◌, ◌⊎◌, inl, inr, refl, sym, ◌∙◌, false, subst, String, true, none, some, if◌then◌else◌,
  nat_eq, string_eq, option_eq, list_eq, arith, Option-cases, lookup, lookup-insert, ok, raise,
}
use openevent_modules_im.Json.Equality.{fields_eq_refl, json_eq_refl, IsObject, IsWellFormed}
use openevent_modules_im.State.Model.{
  inbound_key_eq, OutboundTask, TerminalResult, RuntimeState, same_send_request, same_send_result,
  conflict,
}
use openevent_modules_im.State.Requests.{add_task}
use openevent_modules_im.State.Results.{add_terminal, keep_message, unblock_channel}

same_send_request_refl :
    (task : OutboundTask) → IsObject task.content → same_send_request task task ≡ true
unfolding same_send_request
same_send_request_refl task h = ground (arith, fields_eq_refl task.content h)

-- Two send.requests that differ at most in their sequence number.
abbrev pub IsCopyOfRequest : OutboundTask → OutboundTask → Type 0
IsCopyOfRequest task copy =
    (copy.channel_id ≡ task.channel_id)
    × (copy.principal ≡ task.principal)
    × (copy.request_id ≡ task.request_id)
    × (copy.msg_type ≡ task.msg_type)
    × (copy.content ≡ task.content)

-- Once a send.request is added, one like it is canonical.
add_task-canonical :
    (s : RuntimeState) (task : OutboundTask) {s' : RuntimeState}
    → IsObject task.content
    → add_task s task ≡ ok s'
    → (existing : OutboundTask) × (lookup task.request_id s'.canonical_requests_by_id
        ≡ some existing)
      × (same_send_request existing task ≡ true)
unfolding add_task
add_task-canonical s task h e =
    elim (Option-cases (lookup task.request_id s.canonical_requests_by_id)) [
      | inl new ↦ (
        task,
        ground
            (arith, lookup-insert task.request_id task.request_id task s.canonical_requests_by_id),
        same_send_request_refl task h,
      )
      | inr (existing, old) ↦ (existing, ground arith, ground arith)
    ]

add_task-known :
    (s : RuntimeState) (existing task : OutboundTask)
    → lookup task.request_id s.canonical_requests_by_id ≡ some existing
    → add_task s task ≡ (if same_send_request existing task then ok s else raise conflict)
unfolding add_task
add_task-known s existing task h = rw (h, add_task)

-- Right after a send.request was added, whose content has no key twice in any object: another one
-- that differs from it at most in its sequence number is accepted without a change, and one with its
-- request_id but another channel, principal or msg_type is a conflict.
pub add_task-again :
    (s : RuntimeState) (task again : OutboundTask) {s' : RuntimeState}
    → IsObject task.content
    → add_task s task ≡ ok s'
    → again.request_id ≡ task.request_id
    → (IsCopyOfRequest task again → add_task s' again ≡ ok s')
      × ((again.channel_id ≢ task.channel_id)
            ⊎ ((again.principal ≢ task.principal) ⊎ (again.msg_type ≢ task.msg_type))
          → add_task s' again ≡ raise conflict)
unfolding same_send_request
add_task-again s task again {s'} h e id =
    let (existing, found, same) = add_task-canonical s task h e in
    let known =
      add_task-known s' existing again
        (subst (λ i. lookup i s'.canonical_requests_by_id ≡ some existing) (sym id) found) in
    (
      λ copy. known ∙ rw (same_as_copy existing same copy) refl,
      λ other. known ∙ rw (not_same existing same other) refl,
    )
  where
    same_as_copy :
        (existing : OutboundTask)
        → same_send_request existing task ≡ true
        → IsCopyOfRequest task again
        → same_send_request existing again ≡ true
    same_as_copy existing same (c, p, r, m, content) = rw (c, p, r, m, content) same

    not_same :
        (existing : OutboundTask)
        → same_send_request existing task ≡ true
        → (again.channel_id ≢ task.channel_id)
          ⊎ ((again.principal ≢ task.principal) ⊎ (again.msg_type ≢ task.msg_type))
        → same_send_request existing again ≡ false
    not_same existing same (inl other) = ground arith
    not_same existing same (inr (inl other)) = ground arith
    not_same existing same (inr (inr other)) = ground arith

pub add_terminal-stored :
    (s : RuntimeState) (result : TerminalResult) (provider session_id : String) {s' : RuntimeState}
    → lookup result.request_id s.terminal_results_by_id ≡ none
    → add_terminal s result provider session_id ≡ ok s'
    → lookup result.request_id s'.terminal_results_by_id ≡ some result
unfolding add_terminal keep_message unblock_channel
add_terminal-stored s result provider session_id h e =
    ground
      (arith, lookup-insert result.request_id result.request_id result s.terminal_results_by_id)

same_send_result_refl :
    (r : TerminalResult) → IsWellFormed r.provider_message_id → same_send_result r r ≡ true
unfolding same_send_result
same_send_result_refl r h = ground (arith, json_eq_refl r.provider_message_id h)

pub add_terminal-known :
    (s : RuntimeState) (existing result : TerminalResult) (provider session_id : String)
    → lookup result.request_id s.terminal_results_by_id ≡ some existing
    → add_terminal s result provider session_id
      ≡ (if same_send_result existing result then ok s else raise conflict)
unfolding add_terminal
add_terminal-known s existing result provider session_id h = rw (h, add_terminal)

-- Two send.results that differ at most in their sequence number.
abbrev pub IsCopyOfResult : TerminalResult → TerminalResult → Type 0
IsCopyOfResult result copy =
    (copy.channel_id ≡ result.channel_id)
    × (copy.principal ≡ result.principal)
    × (copy.recipients ≡ result.recipients)
    × (copy.request_id ≡ result.request_id)
    × (copy.prev_seq ≡ result.prev_seq)
    × (copy.status ≡ result.status)
    × (copy.provider_message_id ≡ result.provider_message_id)

-- Once a send.result is accepted, one like it is the result of its request.
add_terminal-terminal :
    (s : RuntimeState) (result : TerminalResult) (provider session_id : String) {s' : RuntimeState}
    → IsWellFormed result.provider_message_id
    → add_terminal s result provider session_id ≡ ok s'
    → (existing : TerminalResult) × (lookup result.request_id s'.terminal_results_by_id
        ≡ some existing)
      × (same_send_result existing result ≡ true)
add_terminal-terminal s result provider session_id {s'} w e =
    elim (Option-cases (lookup result.request_id s.terminal_results_by_id)) [
      | inl new ↦ (
        result,
        add_terminal-stored s result provider session_id new e,
        same_send_result_refl result w,
      )
      | inr (existing, old) ↦
          let known = add_terminal-known s existing result provider session_id old in
          let same : s ≡ s' = ground (arith, known) in
          (
            existing,
            subst (λ u. lookup result.request_id u.terminal_results_by_id ≡ some existing) same old,
            ground (arith, known),
          )
    ]

-- Right after a send.result was accepted, whose provider_message_id has no key twice in any object:
-- another one that differs from it at most in its sequence number is accepted without a change, and
-- one for its request with another channel, principal, recipients, prev_seq or status is a conflict.
pub add_terminal-again :
    (s : RuntimeState) (result again : TerminalResult) (provider session_id : String)
    {s' : RuntimeState}
    → IsWellFormed result.provider_message_id
    → add_terminal s result provider session_id ≡ ok s'
    → again.request_id ≡ result.request_id
    → (IsCopyOfResult result again → add_terminal s' again provider session_id ≡ ok s')
      × ((again.channel_id ≢ result.channel_id)
            ⊎ ((again.principal ≢ result.principal)
                ⊎ ((again.recipients ≢ result.recipients)
                    ⊎ ((again.prev_seq ≢ result.prev_seq) ⊎ (again.status ≢ result.status))))
          → add_terminal s' again provider session_id ≡ raise conflict)
unfolding same_send_result
add_terminal-again s result again provider session_id {s'} w e id =
    let (existing, found, same) = add_terminal-terminal s result provider session_id w e in
    let known =
      add_terminal-known s' existing again provider session_id
        (subst (λ i. lookup i s'.terminal_results_by_id ≡ some existing) (sym id) found) in
    (
      λ copy. known ∙ rw (same_as_copy existing same copy) refl,
      λ other. known ∙ rw (not_same existing same other) refl,
    )
  where
    same_as_copy :
        (existing : TerminalResult)
        → same_send_result existing result ≡ true
        → IsCopyOfResult result again
        → same_send_result existing again ≡ true
    same_as_copy existing same (c, p, r, i, prev, status, id) =
        rw (c, p, r, i, prev, status, id) same

    not_same :
        (existing : TerminalResult)
        → same_send_result existing result ≡ true
        → (again.channel_id ≢ result.channel_id)
          ⊎ ((again.principal ≢ result.principal)
              ⊎ ((again.recipients ≢ result.recipients)
                  ⊎ ((again.prev_seq ≢ result.prev_seq) ⊎ (again.status ≢ result.status))))
        → same_send_result existing again ≡ false
    not_same existing same (inl other) = ground arith
    not_same existing same (inr (inl other)) = ground arith
    not_same existing same (inr (inr (inl other))) = ground arith
    not_same existing same (inr (inr (inr (inl other)))) = ground arith
    not_same existing same (inr (inr (inr (inr other)))) = ground arith

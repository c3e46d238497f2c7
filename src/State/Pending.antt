-- ===== src/State/Pending.antt =====
-- Which request `next_pending_task` takes, and when it takes none.
use openevent_modules_im.Prelude.{
  ℕ, ◌≡◌, ◌≢◌, ◌⊎◌, ◌≤◌, inl, inr, refl, sym, ap, ◌∙◌, List, ◌∷◌, ◌++◌, String, true, false, none,
  some, [], contains, nat_eq, string_eq, option_eq, list_eq, arith, Option-cases, lookup,
  lookup-insert,
}
use openevent_modules_im.State.Model.{HeapEntry, heap_entry_eq, OutboundTask, RuntimeState}
use openevent_modules_im.State.Requests.{ready, verdict, pop_pending, next_pending_task}
use openevent_modules_im.State.Queue.{pop_pending-cases}
use openevent_modules_im.State.Invariant.{IsValid, ready_lem}

-- A pending request that waits in the heap, on a channel that no other request blocks.
pub record IsOpen (s : RuntimeState) (t : OutboundTask) : Type 0 where
  pub pending : lookup t.request_id s.requests_by_id ≡ some t
  pub queued : contains s.pending_heap (t.seq, t.request_id) ≡ true
  pub unblocked :
      (lookup t.channel_id s.blocked_by_channel ≡ none)
      ⊎ (lookup t.channel_id s.blocked_by_channel ≡ some t.request_id)

IsOpen-ready :
    (s : RuntimeState) (t : OutboundTask)
    → IsValid s
    → IsOpen s t
    → verdict s (t.seq, t.request_id) ≡ ready t
unfolding verdict
IsOpen-ready s t v o = ground (arith, v.unfinished t.request_id t, o.pending, o.unblocked)

ready-IsOpen :
    (s : RuntimeState) (entry : HeapEntry) (t : OutboundTask)
    → IsValid s
    → contains s.pending_heap entry ≡ true
    → verdict s entry ≡ ready t
    → IsOpen s t × (t.seq ≡ entry.0) × (t.request_id ≡ entry.1)
ready-IsOpen s entry t v queued h =
    let (pending, same_seq, _, unblocked) = ready_lem s entry t h in
    let named : t.request_id ≡ entry.1 = v.keyed entry.1 t (v.canonical entry.1 t pending) in
    (
      record { pending = ground arith; queued = ground arith; unblocked = ground arith },
      same_seq,
      named,
    )

-- In a valid state `next_pending_task` returns an open request whose sequence number is the least
-- of all open requests, and its channel is blocked by it from then on.
pub next_pending_task-first :
    (s : RuntimeState) {s' : RuntimeState} {t : OutboundTask}
    → IsValid s
    → next_pending_task s ≡ (some t, s')
    → IsOpen s t
      × ((u : OutboundTask) → IsOpen s u → t.seq ≤ u.seq)
      × (lookup t.channel_id s'.blocked_by_channel ≡ some t.request_id)
unfolding next_pending_task
next_pending_task-first s {s'} {t} v h = elim (pop_pending-cases s [] s.pending_heap v.ordered) [
  | inl e ↦ absurd (ground (arith, e.result))
  | inr e ↦
      let ready_t : verdict s e.entry ≡ ready t = ground (arith, e.is_ready, e.result) in
      let (o, same_seq, named) = ready-IsOpen s e.entry t v e.queued ready_t in
      (
        o,
        λ u ou. ground (arith, e.first (u.seq, u.request_id) u ou.queued (IsOpen-ready s u v ou)),
        ground (
          arith,
          e.result,
          lookup-insert t.channel_id t.channel_id e.entry.1 s.blocked_by_channel,
        ),
      )
]

-- What is neither stale nor ready waits for another request of its channel.
blocked_of_not_ready :
    (s : RuntimeState) (k : String) (t : OutboundTask)
    → lookup k s.requests_by_id ≡ some t
    → contains s.completed_request_ids k ≡ false
    → verdict s (t.seq, k) ≢ ready t
    → (j : String) × (lookup t.channel_id s.blocked_by_channel ≡ some j)
unfolding verdict
blocked_of_not_ready s k t pending open_ h =
    elim (Option-cases (lookup t.channel_id s.blocked_by_channel)) [
      | inl free ↦ absurd (h (ground arith))
      | inr (j, blocking) ↦ (j, blocking)
    ]

blocker :
    (s : RuntimeState) (c : ℕ) (j : String)
    → IsValid s
    → lookup c s.blocked_by_channel ≡ some j
    → (b : OutboundTask) × (lookup c s.blocked_by_channel ≡ some b.request_id)
      × (lookup b.request_id s.requests_by_id ≡ some b)
      × (b.channel_id ≡ c)
blocker s c j v h =
    let (b, pending, on_channel) = v.live c j h in
    let named : b.request_id ≡ j = v.keyed j b (v.canonical j b pending) in
    (b, ground arith, ground arith, on_channel)

-- In a valid state `next_pending_task` returns no request only if the channel of every pending
-- request is blocked by a pending request of that channel.
pub next_pending_task-none :
    (s : RuntimeState) {s' : RuntimeState}
    → IsValid s
    → next_pending_task s ≡ (none, s')
    → (k : String) (t : OutboundTask) → lookup k s.requests_by_id ≡ some t
    → (b : OutboundTask) × (lookup t.channel_id s.blocked_by_channel ≡ some b.request_id)
      × (lookup b.request_id s.requests_by_id ≡ some b)
      × (b.channel_id ≡ t.channel_id)
unfolding next_pending_task
next_pending_task-none s {s'} v h k t pending =
    elim (pop_pending-cases s [] s.pending_heap v.ordered) [
      | inr e ↦ absurd (ground (arith, e.result))
      | inl e ↦ elim (v.waiting k t pending) [
        | inr blocking ↦ blocker s t.channel_id k v blocking
        | inl queued ↦
            let (j, blocking) =
              blocked_of_not_ready s k t pending (v.unfinished k t pending)
                (e.none_ready (t.seq, k) t queued) in
            blocker s t.channel_id j v blocking
      ]
    ]

pop_pending-requests :
    (s : RuntimeState) (postponed heap : List HeapEntry)
    → (pop_pending s postponed heap).1.requests_by_id ≡ s.requests_by_id
unfolding pop_pending
pop_pending-requests s postponed [] = refl
pop_pending-requests s postponed (entry ∷ heap) = ground (
  arith,
  pop_pending-requests s postponed heap,
  pop_pending-requests s (postponed ++ entry ∷ []) heap,
)

-- The task that is taken is still pending.
pub next_pending_task-pending :
    (s : RuntimeState) {s' : RuntimeState} {t : OutboundTask}
    → IsValid s
    → next_pending_task s ≡ (some t, s')
    → lookup t.request_id s'.requests_by_id ≡ some t
unfolding next_pending_task
next_pending_task-pending s {s'} {t} v h =
    let (open_task, _, _) = next_pending_task-first s v h in
    ap (λ d. lookup t.request_id d)
      (sym (ap (λ r. r.1.requests_by_id) h) ∙ pop_pending-requests s [] s.pending_heap)
    ∙ open_task.pending

-- ===== src/State/Invariant.antt =====
-- The invariant of `RuntimeState`, with adding and taking requests.
use openevent_modules_im.Prelude.{
  ℕ, ◌≡◌, ◌≢◌, ◌⊎◌, inl, inr, sym, String, true, false, ◌||◌, none, some, List, [], ◌==◌, contains,
  nat_eq, string_eq, option_eq, list_eq, Eq, arith, Bool-cases, Option-cases, insert, lookup,
  lookup-insert, ok, subst, ap,
}
use openevent_modules_im.State.Model.{
  HeapEntry, heap_entry_eq, OutboundTask, TerminalResult, RuntimeState, initial, add_to,
}
use openevent_modules_im.State.Heap.{heappush}
use openevent_modules_im.State.Requests.{stale, ready, verdict, add_task, next_pending_task}
use openevent_modules_im.State.Queue.{
  IsOrdered, heappush-IsOrdered, contains-heappush, Exhausted, Found, pop_pending-cases,
}

pub record IsValid (s : RuntimeState) : Type 0 where
  pub ordered : IsOrdered s.pending_heap
  -- A request stands under its own id; a pending one is the canonical one, and has no result yet.
  pub keyed :
      (k : String) (t : OutboundTask)
      → lookup k s.canonical_requests_by_id ≡ some t
      → t.request_id ≡ k
  pub canonical :
      (k : String) (t : OutboundTask)
      → lookup k s.requests_by_id ≡ some t
      → lookup k s.canonical_requests_by_id ≡ some t
  pub unfinished :
      (k : String) (t : OutboundTask)
      → lookup k s.requests_by_id ≡ some t
      → contains s.completed_request_ids k ≡ false
  -- A pending request is in the heap, or its channel is blocked by it.
  pub waiting :
      (k : String) (t : OutboundTask)
      → lookup k s.requests_by_id ≡ some t
      → (contains s.pending_heap (t.seq, k) ≡ true)
        ⊎ (lookup t.channel_id s.blocked_by_channel ≡ some k)
  -- A channel is blocked by a pending request of that channel only.
  pub live :
      (c : ℕ) (k : String)
      → lookup c s.blocked_by_channel ≡ some k
      → (t : OutboundTask) × (lookup k s.requests_by_id ≡ some t) × (t.channel_id ≡ c)
  -- No request is lost: it is pending until its result is known.
  pub kept :
      (k : String) (t : OutboundTask)
      → lookup k s.canonical_requests_by_id ≡ some t
      → (lookup k s.requests_by_id ≡ some t) ⊎ (contains s.completed_request_ids k ≡ true)
  pub finished :
      (k : String) (r : TerminalResult)
      → lookup k s.terminal_results_by_id ≡ some r
      → contains s.completed_request_ids k ≡ true

pub initial-IsValid : IsValid initial
unfolding lookup
initial-IsValid = record {
  ordered = tt;
  keyed = λ k t h. cc;
  canonical = λ k t h. cc;
  unfinished = λ k t h. cc;
  waiting = λ k t h. cc;
  live = λ c k h. cc;
  kept = λ k t h. cc;
  finished = λ k r h. cc;
}

pub contains-add_to {ℓ} :
    {A : Type ℓ} ⦃e : Eq A⦄ (z x : A) (xs : List A)
    → contains (add_to x xs) z ≡ (z == x || contains xs z)
unfolding add_to
contains-add_to z x xs = elim (Bool-cases (contains xs x)) [
  | inl old ↦ ground arith
  | inr new ↦ ground arith
]

-- The two states that `add_task` returns for a new request.
abbrev with_known : RuntimeState → OutboundTask → RuntimeState
with_known s task = record s {
  canonical_requests_by_id = insert task.request_id task s.canonical_requests_by_id;
}

abbrev with_queued : RuntimeState → OutboundTask → RuntimeState
with_queued s task = record s {
  canonical_requests_by_id = insert task.request_id task s.canonical_requests_by_id;
  requests_by_id = insert task.request_id task s.requests_by_id;
  pending_heap = heappush (task.seq, task.request_id) s.pending_heap;
}

module _ (s : RuntimeState) (v : IsValid s) (task : OutboundTask)
    (fresh : lookup task.request_id s.canonical_requests_by_id ≡ none) where
  known-IsValid :
      contains s.completed_request_ids task.request_id ≡ true → IsValid (with_known s task)
  known-IsValid done = record {
    ordered = v.ordered;
    keyed = λ k t h.
        ground
          (arith, v.keyed k t, lookup-insert k task.request_id task s.canonical_requests_by_id);
    canonical = λ k t h.
        ground
          (arith, v.canonical k t, lookup-insert k task.request_id task s.canonical_requests_by_id);
    unfinished = v.unfinished;
    waiting = v.waiting;
    live = v.live;
    kept = λ k t h.
        ground (arith, v.kept k t, lookup-insert k task.request_id task s.canonical_requests_by_id);
    finished = v.finished;
  }

  queued-IsValid :
      contains s.completed_request_ids task.request_id ≡ false → IsValid (with_queued s task)
  queued-IsValid open_ = record {
    ordered = heappush-IsOrdered (task.seq, task.request_id) s.pending_heap v.ordered;
    keyed = λ k t h.
        ground
          (arith, v.keyed k t, lookup-insert k task.request_id task s.canonical_requests_by_id);
    canonical = λ k t h. ground (
      arith,
      v.canonical k t,
      lookup-insert k task.request_id task s.canonical_requests_by_id,
      lookup-insert k task.request_id task s.requests_by_id,
    );
    unfinished = λ k t h.
        ground (arith, v.unfinished k t, lookup-insert k task.request_id task s.requests_by_id);
    waiting = λ k t h. ground (
      arith,
      v.waiting k t,
      lookup-insert k task.request_id task s.requests_by_id,
      contains-heappush (t.seq, k) (task.seq, task.request_id) s.pending_heap,
    );
    live = λ c k h.
        let (t, pending, on_channel) = v.live c k h in
        (
          t,
          ground (
            arith,
            v.canonical k t pending,
            lookup-insert k task.request_id task s.requests_by_id,
          ),
          on_channel,
        );
    kept = λ k t h. ground (
      arith,
      v.kept k t,
      lookup-insert k task.request_id task s.canonical_requests_by_id,
      lookup-insert k task.request_id task s.requests_by_id,
    );
    finished = v.finished;
  }

pub add_task-IsValid :
    (s : RuntimeState) (task : OutboundTask) {s' : RuntimeState}
    → IsValid s
    → add_task s task ≡ ok s'
    → IsValid s'
unfolding add_task
add_task-IsValid s task {s'} v h =
    elim (Option-cases (lookup task.request_id s.canonical_requests_by_id)) [
      | inl fresh ↦ elim (Bool-cases (contains s.completed_request_ids task.request_id)) [
        | inl done ↦
            let e : with_known s task ≡ s' = ground arith in
            subst IsValid e (known-IsValid s v task fresh done)
        | inr open_ ↦
            let e : with_queued s task ≡ s' = ground arith in
            subst IsValid e (queued-IsValid s v task fresh open_)
      ]
      | inr (existing, old) ↦ let e : s ≡ s' = ground arith in subst IsValid e v
    ]

-- A pending request is popped, or kept in the heap.
pending-ne-stale :
    (s : RuntimeState) (k : String) (t : OutboundTask)
    → lookup k s.requests_by_id ≡ some t
    → contains s.completed_request_ids k ≡ false
    → verdict s (t.seq, k) ≢ stale
unfolding verdict
pending-ne-stale s k t pending open_ h = ground arith

pub ready_lem :
    (s : RuntimeState) (entry : HeapEntry) (t : OutboundTask)
    → verdict s entry ≡ ready t
    → (lookup entry.1 s.requests_by_id ≡ some t)
      × (t.seq ≡ entry.0)
      × (contains s.completed_request_ids entry.1 ≡ false)
      × ((lookup t.channel_id s.blocked_by_channel ≡ none)
          ⊎ (lookup t.channel_id s.blocked_by_channel ≡ some entry.1))
unfolding verdict
ready_lem s entry t h = ground arith

module _ (s : RuntimeState) (v : IsValid s) where
  keeps_waiting :
      (rest : List HeapEntry) (k : String) (t : OutboundTask)
      → ((z : HeapEntry)
          → contains s.pending_heap z ≡ true
          → verdict s z ≢ stale
          → contains rest z ≡ true)
      → lookup k s.requests_by_id ≡ some t
      → (contains rest (t.seq, k) ≡ true) ⊎ (lookup t.channel_id s.blocked_by_channel ≡ some k)
  keeps_waiting rest k t keeps h = elim (v.waiting k t h) [
    | inl queued ↦ inl (keeps (t.seq, k) queued (pending-ne-stale s k t h (v.unfinished k t h)))
    | inr blocking ↦ inr blocking
  ]

  Exhausted-IsValid :
      (e : Exhausted s [] s.pending_heap (next_pending_task s))
      → IsValid (record s { pending_heap = e.rest })
  Exhausted-IsValid e = record {
    ordered = e.ordered;
    keyed = v.keyed;
    canonical = v.canonical;
    unfinished = v.unfinished;
    waiting = λ k t h. keeps_waiting e.rest k t e.keeps h;
    live = v.live;
    kept = v.kept;
    finished = v.finished;
  }

  blocked_waiting :
      (e : Found s [] s.pending_heap (next_pending_task s)) (k : String) (t : OutboundTask)
      → lookup k s.requests_by_id ≡ some t
      → (contains e.rest (t.seq, k) ≡ true)
        ⊎ (lookup t.channel_id (insert e.task.channel_id e.entry.1 s.blocked_by_channel) ≡ some k)
  blocked_waiting e k t h =
      let facts = ready_lem s e.entry e.task e.is_ready in
      let blocks = lookup-insert t.channel_id e.task.channel_id e.entry.1 s.blocked_by_channel in
      elim (heap_entry_eq.dec (t.seq, k) e.entry) [
        | yes same ↦ inr (ground (arith, facts, blocks, ap (λ z. z.1) same))
        | no other ↦ elim (v.waiting k t h) [
          | inl queued ↦
              inl (e.keeps (t.seq, k) queued (pending-ne-stale s k t h (v.unfinished k t h)) other)
          | inr blocking ↦ inr (ground (arith, facts, blocks))
        ]
      ]

  blocked_live :
      (e : Found s [] s.pending_heap (next_pending_task s)) (c : ℕ) (k : String)
      → lookup c (insert e.task.channel_id e.entry.1 s.blocked_by_channel) ≡ some k
      → (t : OutboundTask) × (lookup k s.requests_by_id ≡ some t) × (t.channel_id ≡ c)
  blocked_live e c k h =
      let facts = ready_lem s e.entry e.task e.is_ready in
      let blocks = lookup-insert c e.task.channel_id e.entry.1 s.blocked_by_channel in
      elim (nat_eq.dec c e.task.channel_id) [
        | yes same ↦ (e.task, ground (arith, facts, blocks), sym same)
        | no other ↦ v.live c k (ground (arith, blocks))
      ]

  Found-IsValid :
      (e : Found s [] s.pending_heap (next_pending_task s))
      → IsValid (record s {
        blocked_by_channel = insert e.task.channel_id e.entry.1 s.blocked_by_channel;
        pending_heap = e.rest;
      })
  Found-IsValid e = record {
    ordered = e.ordered;
    keyed = v.keyed;
    canonical = v.canonical;
    unfinished = v.unfinished;
    waiting = blocked_waiting e;
    live = blocked_live e;
    kept = v.kept;
    finished = v.finished;
  }

  pub next_pending_task-IsValid : IsValid (next_pending_task s).1
  unfolding next_pending_task
  next_pending_task-IsValid = elim (pop_pending-cases s [] s.pending_heap v.ordered) [
    | inl e ↦ rw (e.result, next_pending_task) (Exhausted-IsValid e)
    | inr e ↦ rw (e.result, next_pending_task) (Found-IsValid e)
  ]

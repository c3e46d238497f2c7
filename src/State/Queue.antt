-- ===== src/State/Queue.antt =====
-- The queue of requests in state.py: what the heap holds, and what `next_pending_task` pops.
use openevent_modules_im.Prelude.{
  ℕ, ◌≤◌, ◌≡◌, ◌≢◌, ◌⊎◌, inl, inr, refl, true, false, ◌||◌, Option, none, some, List, [], ◌∷◌, ◌++◌,
  ◌==◌, contains, nat_eq, string_eq, arith, Bool-cases, insert,
}
use openevent_modules_im.State.Model.{HeapEntry, heap_entry_eq, OutboundTask, RuntimeState}
use openevent_modules_im.State.Heap.{entry_lt, heappush, push_all}
use openevent_modules_im.State.Requests.{Verdict, stale, deferred, ready, verdict, pop_pending}

pub contains-heappush :
    (z x : HeapEntry) (ys : List HeapEntry) → contains (heappush x ys) z ≡ (z == x || contains ys z)
unfolding heappush
contains-heappush z x [] = refl
contains-heappush z x (y ∷ ys) = ground (arith, contains-heappush z x ys)

contains-push_all :
    (z : HeapEntry) (xs ys : List HeapEntry)
    → contains (push_all xs ys) z ≡ (contains xs z || contains ys z)
unfolding push_all
contains-push_all z [] ys = refl
contains-push_all z (x ∷ xs) ys =
    ground (arith, contains-push_all z xs (heappush x ys), contains-heappush z x ys)

contains-append :
    (z : HeapEntry) (xs ys : List HeapEntry)
    → contains (xs ++ ys) z ≡ (contains xs z || contains ys z)
contains-append z [] ys = refl
contains-append z (x ∷ xs) ys = ground (arith, contains-append z xs ys)

abbrev pub From : ℕ → List HeapEntry → Type 0
From n [] = Unit {0}
From n (x ∷ xs) = (n ≤ x.0) × From n xs

-- The entries stand in the order of their sequence numbers.
abbrev pub IsOrdered : List HeapEntry → Type 0
IsOrdered [] = Unit {0}
IsOrdered (x ∷ xs) = From x.0 xs × IsOrdered xs

From-le : (m n : ℕ) (xs : List HeapEntry) → m ≤ n → From n xs → From m xs
From-le m n [] h f = tt
From-le m n (x ∷ xs) h f = (omega arith, From-le m n xs h f.1)

From-contains :
    (n : ℕ) (xs : List HeapEntry) (z : HeapEntry) → From n xs → contains xs z ≡ true → n ≤ z.0
From-contains n [] z f h = cc
From-contains n (x ∷ xs) z f h = ground (arith, From-contains n xs z f.1)

entry_lt-le : (x y : HeapEntry) → entry_lt y x ≡ true → y.0 ≤ x.0
unfolding entry_lt
entry_lt-le x y h = ground arith

le-entry_lt : (x y : HeapEntry) → entry_lt y x ≡ false → x.0 ≤ y.0
unfolding entry_lt
le-entry_lt x y h = ground arith

From-heappush :
    (n : ℕ) (x : HeapEntry) (ys : List HeapEntry) → n ≤ x.0 → From n ys → From n (heappush x ys)
unfolding heappush
From-heappush n x [] h f = (h, tt)
From-heappush n x (y ∷ ys) h f = elim (Bool-cases (entry_lt y x)) [
  | inl before ↦ rw before (f.0, From-heappush n x ys h f.1)
  | inr after ↦ rw after (h, (f.0, f.1))
]

pub heappush-IsOrdered :
    (x : HeapEntry) (ys : List HeapEntry) → IsOrdered ys → IsOrdered (heappush x ys)
unfolding heappush
heappush-IsOrdered x [] h = (tt, tt)
heappush-IsOrdered x (y ∷ ys) h = elim (Bool-cases (entry_lt y x)) [
  | inl before ↦
      rw before (From-heappush y.0 x ys (entry_lt-le x y before) h.0, heappush-IsOrdered x ys h.1)
  | inr after ↦
      let below : x.0 ≤ y.0 = le-entry_lt x y after in
      rw after ((below, From-le x.0 y.0 ys below h.0), h)
]

push_all-IsOrdered : (xs ys : List HeapEntry) → IsOrdered ys → IsOrdered (push_all xs ys)
unfolding push_all
push_all-IsOrdered [] ys h = h
push_all-IsOrdered (x ∷ xs) ys h = push_all-IsOrdered xs (heappush x ys) (heappush-IsOrdered x ys h)

-- No entry is ready, and the heap keeps the deferred ones.
pub record Exhausted (s : RuntimeState) (postponed heap : List HeapEntry)
    (r : Option OutboundTask × RuntimeState) : Type 0 where
  pub rest : List HeapEntry
  pub result : r ≡ (none, record s { pending_heap = rest })
  pub none_ready :
      (z : HeapEntry) (t : OutboundTask) → contains heap z ≡ true → verdict s z ≢ ready t
  pub keeps :
      (z : HeapEntry)
      → (contains postponed z || contains heap z) ≡ true
      → verdict s z ≢ stale
      → contains rest z ≡ true
  pub ordered : IsOrdered rest

-- The task of the first ready entry, and the heap without it and the stale ones before it.
pub record Found (s : RuntimeState) (postponed heap : List HeapEntry)
    (r : Option OutboundTask × RuntimeState) : Type 0 where
  pub task : OutboundTask
  pub entry : HeapEntry
  pub rest : List HeapEntry
  pub result : r ≡ (
    some task,
    record s {
      blocked_by_channel = insert task.channel_id entry.1 s.blocked_by_channel;
      pending_heap = rest;
    },
  )
  pub is_ready : verdict s entry ≡ ready task
  pub queued : contains heap entry ≡ true
  pub first :
      (z : HeapEntry) (t : OutboundTask)
      → contains heap z ≡ true
      → verdict s z ≡ ready t
      → entry.0 ≤ z.0
  pub keeps :
      (z : HeapEntry)
      → (contains postponed z || contains heap z) ≡ true
      → verdict s z ≢ stale
      → z ≢ entry
      → contains rest z ≡ true
  pub ordered : IsOrdered rest

Verdict-cases : (v : Verdict) → (v ≡ stale) ⊎ (v ≡ deferred) ⊎ ((t : OutboundTask) × (v ≡ ready t))
Verdict-cases stale = inl refl
Verdict-cases deferred = inr (inl refl)
Verdict-cases (ready t) = inr (inr (t, refl))

abbrev Outcome :
    RuntimeState → List HeapEntry → List HeapEntry → Option OutboundTask × RuntimeState → Type 0
Outcome s postponed heap r = Exhausted s postponed heap r ⊎ Found s postponed heap r

module _ (s : RuntimeState) (postponed heap : List HeapEntry) (x : HeapEntry)
    (r : Option OutboundTask × RuntimeState) where
  Outcome-stale :
      IsOrdered (x ∷ heap)
      → verdict s x ≡ stale
      → Outcome s postponed heap r
      → Outcome s postponed (x ∷ heap) r
  Outcome-stale o v (inl e) = inl (record {
    rest = e.rest;
    result = e.result;
    none_ready = λ z t c h. ground (arith, e.none_ready z t);
    keeps = λ z c h. ground (arith, e.keeps z);
    ordered = e.ordered;
  })
  Outcome-stale o v (inr e) = inr (record {
    task = e.task;
    entry = e.entry;
    rest = e.rest;
    result = e.result;
    is_ready = e.is_ready;
    queued = ground (arith, e.queued);
    first = λ z t c h. ground (arith, e.first z t);
    keeps = λ z c h n. ground (arith, e.keeps z);
    ordered = e.ordered;
  })

  Outcome-deferred :
      IsOrdered (x ∷ heap)
      → verdict s x ≡ deferred
      → Outcome s (postponed ++ x ∷ []) heap r
      → Outcome s postponed (x ∷ heap) r
  Outcome-deferred o v (inl e) = inl (record {
    rest = e.rest;
    result = e.result;
    none_ready = λ z t c h. ground (arith, e.none_ready z t);
    keeps = λ z c h. ground (arith, e.keeps z, contains-append z postponed (x ∷ []));
    ordered = e.ordered;
  })
  Outcome-deferred o v (inr e) = inr (record {
    task = e.task;
    entry = e.entry;
    rest = e.rest;
    result = e.result;
    is_ready = e.is_ready;
    queued = ground (arith, e.queued);
    first = λ z t c h. ground (arith, e.first z t);
    keeps = λ z c h n. ground (arith, e.keeps z, contains-append z postponed (x ∷ []));
    ordered = e.ordered;
  })

Found-ready :
    (s : RuntimeState) (postponed heap : List HeapEntry) (x : HeapEntry) (task : OutboundTask)
    → IsOrdered (x ∷ heap)
    → verdict s x ≡ ready task
    → Found s postponed (x ∷ heap) (pop_pending s postponed (x ∷ heap))
unfolding pop_pending
Found-ready s postponed heap x task o v = record {
  task = task;
  entry = x;
  rest = push_all postponed heap;
  result = rw (v, pop_pending);
  is_ready = v;
  queued = ground arith;
  first = λ z t c h. ground (arith, From-contains x.0 heap z o.0);
  keeps = λ z c h n. ground (arith, contains-push_all z postponed heap);
  ordered = push_all-IsOrdered postponed heap o.1;
}

pub pop_pending-cases :
    (s : RuntimeState) (postponed heap : List HeapEntry)
    → IsOrdered heap
    → Outcome s postponed heap (pop_pending s postponed heap)
unfolding pop_pending
pop_pending-cases s postponed [] o = inl (record {
  rest = push_all postponed [];
  result = refl;
  none_ready = λ z t c. cc;
  keeps = λ z c h. ground (arith, contains-push_all z postponed []);
  ordered = push_all-IsOrdered postponed [] tt;
})
pop_pending-cases s postponed (x ∷ heap) o = elim (Verdict-cases (verdict s x)) [
  | inl v ↦
      rw (v, pop_pending)
        (Outcome-stale s postponed heap x _ o v (pop_pending-cases s postponed heap o.1))
  | inr (inl v) ↦
      rw (v, pop_pending)
        (Outcome-deferred s postponed heap x _ o v
          (pop_pending-cases s (postponed ++ x ∷ []) heap o.1))
  | inr (inr (task, v)) ↦ inr (Found-ready s postponed heap x task o v)
]

-- ===== src/State/Heap.antt =====
-- The heap of state.py. `pending_heap` is the sorted list of the heap's entries: `heappop` takes its
-- head, and `heappush` inserts in the order of Python's tuples.
use Prim.Native.Nat.{Ordering}
use Prim.Native.String
use openevent_modules_im.Prelude.{
  Bool, true, false, ◌&&◌, ◌||◌, List, [], ◌∷◌, ◌==◌, if◌then◌else◌, ltb, nat_eq, string_eq,
  option_eq, list_eq,
}
use openevent_modules_im.State.Model.{inbound_key_eq, HeapEntry, heap_entry_eq}

-- `a < b` on heap entries: by `seq`, then by the code points of `request_id`.
unfoldable pub entry_lt : HeapEntry → HeapEntry → Bool
entry_lt a b =
    ltb a.0 b.0 || (a.0 == b.0 && elim (String.compare a.1 b.1) [ Ordering.lt ↦ true | _ ↦ false ])

unfoldable pub heappush : HeapEntry → List HeapEntry → List HeapEntry
heappush x [] = x ∷ []
heappush x (y ∷ ys) = if entry_lt y x then y ∷ heappush x ys else x ∷ y ∷ ys

-- `for item in items: heappush(heap, item)`
unfoldable pub push_all : List HeapEntry → List HeapEntry → List HeapEntry
push_all [] heap = heap
push_all (x ∷ xs) heap = push_all xs (heappush x heap)

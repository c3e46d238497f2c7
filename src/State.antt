-- ===== src/State.antt =====
-- im_p2p_syncer/state.py: what the worker remembers of the channels.
pub mod Model
pub mod Heap
pub mod Requests
pub mod Results
pub mod Queue
pub mod Invariant
pub mod Closing
pub mod Pending
pub mod Copies
pub mod Replay

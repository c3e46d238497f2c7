-- ===== src/Processor.antt =====
-- `SingleThreadProcessor` of im_p2p_syncer/loop.py. Model holds its state and what it is given,
-- Retry the publishing with retries, Outbound and Inbound the two kinds of work, Tick their turns.
pub mod Model
pub mod Retry
pub mod Attempts
pub mod Outbound
pub mod Delivered
pub mod Sending
pub mod Inbound
pub mod Once
pub mod Picking
pub mod Tick
pub mod Keeping
pub mod Ticking
pub mod Bounded

-- ===== src/Mapping.antt =====
-- im_p2p_syncer/mapping.py: which principals and sessions belong to a channel.
pub mod Index
pub mod Sessions
pub mod Channels
pub mod Pairs
pub mod Entries

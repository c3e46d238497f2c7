-- ===== src/Syncer.antt =====
-- im_p2p_syncer/syncer.py, class P2PSyncer. Model holds what the constructor makes and Messages
-- the routing of a message; Startup, History and Polling are the phases of `start`, which Run puts
-- together. Keeping, Starting, Rounds and Valid follow the `RuntimeState` through all of it;
-- Roles, Replaying, Scanning and Snapshots are about the checks of a message, its way live and
-- from the history, the loop over the history and the snapshots of the loop that polls.
pub mod Model
pub mod Messages
pub mod Startup
pub mod History
pub mod Polling
pub mod Run
pub mod Keeping
pub mod Starting
pub mod Roles
pub mod Replaying
pub mod Scanning
pub mod Rounds
pub mod Snapshots
pub mod Valid

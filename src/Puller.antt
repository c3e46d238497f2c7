-- ===== src/Puller.antt =====
-- im_p2p_syncer/provider_messages.py: history pages and subscription events of one provider,
-- presented as one stream of acknowledged events.
pub mod Model
pub mod Pull
pub mod Sound
pub mod Quiet
pub mod Delivery
pub mod Offers
pub mod Polling
pub mod Starting
pub mod Handoff
pub mod Taking
pub mod Acknowledging

-- ===== src/Client.antt =====
-- im_sdk/client.py, class ImProtocolClient. Publish holds what it sends and how it finds out whether
-- an uncertain publish was committed, Parse how it reads a message. Service says what is relied on
-- in OpenEvent; the others are about what is published and raised.
pub mod Publish
pub mod Parse
pub mod Parsed
pub mod Scan
pub mod Service
pub mod Finding
pub mod Committed
pub mod Published
pub mod Keeping
pub mod Reported
pub mod Once

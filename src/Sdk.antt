-- ===== src/Sdk.antt =====
-- The im.v1 protocol SDK, openevent/im_sdk.
pub mod Model
pub mod Normalizer
pub mod Principals
pub mod Codec
pub mod Decoding
pub mod ResultDecoding
pub mod Checking

-- ===== src/Tests.antt =====
-- Concrete inputs on which the theorems about the modules of the same names are applied.
mod Codec
mod Requests
mod Mapping
mod Client
mod Config
mod Puller
mod Processor
mod Syncer

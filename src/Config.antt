-- ===== src/Config.antt =====
-- im_p2p_syncer/config.py. Values holds the checks of a single value, Sections and Parsing the parts of
-- the file; Checks, Valid and Accepted are about what is accepted.
pub mod Values
pub mod Sections
pub mod Parsing
pub mod Checks
pub mod Valid
pub mod Accepted

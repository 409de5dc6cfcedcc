-- ===== src/Db.antt =====
-- src/db.rs: the codecs of the index plane.
pub mod Keys
pub mod Values
pub mod Pair

-- ===== src/Connection.antt =====
-- src/connection.rs: the hot state of a connection.
pub mod Signed
pub mod State
pub mod Key
pub mod Flags
pub mod Kind

-- ===== src/Matcher.antt =====
-- src/qr.rs: the matching engine over the two databases. `Types` holds its records, `Rows` the steps
-- on the tables, `Engine` the handling of one packet; the other children hold the proofs.
pub mod Types
pub mod Rows
pub mod Terminal
pub mod Engine
pub mod Packet
pub mod Ingest
pub mod Migrate
pub mod Outcome
pub mod Changes
pub mod Answered
pub mod Answer
pub mod Total
pub mod Commit
pub mod Pending
pub mod Isolation

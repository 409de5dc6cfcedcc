-- ===== src/Examples.antt =====
-- Runs of the development on concrete inputs.
mod Codecs
mod Streams
mod Reassembled
mod Matching
pub mod Accounts
pub mod Timeouts
pub mod Pipelines
pub mod Protocols
pub mod Queries
mod Captures

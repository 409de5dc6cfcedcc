-- ===== src/Reassembly.antt =====
-- src/reassembly.rs: the reassembler. `State` holds its data, `Pending` the out-of-order store of one
-- segment, `Steps` the internal steps, `Engine` the entry points; the other children hold the proofs.
pub mod State
pub mod Pending
pub mod Steps
pub mod Engine
pub mod Slices
pub mod Progress
pub mod Quiet
pub mod Evict
pub mod Content
pub mod Order
pub mod Run
pub mod Sound
pub mod Total
pub mod Delivery
pub mod Seal
pub mod Budget
pub mod Account
pub mod Handover
pub mod Overlap

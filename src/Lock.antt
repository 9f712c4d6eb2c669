-- ===== src/Lock.antt =====
-- src/lock.rs: the reader-writer lock of a shard. The word and what the callers do to it, one
-- atomic access at a time (`Thread`), any number of callers interleaved (`System`), what stays
-- true of them (`Invariant`) and what follows from it (`Safety`).
pub mod Word
pub mod Thread
pub mod System
pub mod Invariant
pub mod Safety
pub mod Alone
pub mod Quiet
pub mod Simulation

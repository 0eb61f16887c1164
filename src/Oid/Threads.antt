-- ===== src/Oid/Threads.antt =====
-- Threads that lock one word of oid.rs, a shared access at a time, in any order.
pub mod Defs
pub mod Counts
pub mod Safety
pub mod Moves

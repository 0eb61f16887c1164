-- ===== src/Tpcc.antt =====
-- The TPC-C benchmark of src/benchmark/src/tpcc.
pub mod Keys
pub mod NewOrder
pub mod Delivery
pub mod Mix
pub mod Names
pub mod Results

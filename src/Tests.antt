-- ===== src/Tests.antt =====
-- The theorems at concrete inputs.
mod Tasks
mod Orders
mod Tables
mod Logs
mod Memory
mod Metrics
mod Words
mod Threads
mod Cache
mod Storage
mod Sessions
mod Races
mod Deliveries

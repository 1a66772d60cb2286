-- ===== src/Pools.antt =====
-- lib/dispatcher: the choice of an upstream and of a connection by the pools.
pub mod Balanced
pub mod RoundRobin
mod Cycle

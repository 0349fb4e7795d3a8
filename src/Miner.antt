-- ===== src/Miner.antt =====
-- miner: the decisions of the miner program that stand apart from its network and device code.
pub mod Version
pub mod Driver
pub mod Cursor
pub mod Pool
pub mod Json
pub mod Fields
pub mod Endpoint
pub mod Stratum
pub mod Loop
pub mod UniValue
pub mod Notify
pub mod Client
pub mod Latch
pub mod PoolLoop
pub mod Solo
mod Tests
